-- ===== src/Amqp/Properties/Stable.antt =====
-- The property list of a content header with more bytes behind (read.go).
use gitbook_golang.Prelude.{ℕ, Bool}
use gitbook_golang.Amqp.Field.Stable.{read_timestamp-Stable, string_stable_rules}
use gitbook_golang.Amqp.Properties.Read.{optional, read_properties}
use gitbook_golang.Amqp.Wire.{Reader}
use gitbook_golang.Amqp.Wire.Stable.{Stable, stable_rules}

optional-Stable {ℓ} :
    {A : Type ℓ} (present : Bool) (zero_value : A) (p : Reader A)
    → Stable p
    → Stable (optional present zero_value p)
unfolding optional
optional-Stable present zero_value p h = search stable_rules

pub read_properties-Stable : (flags : ℕ) → Stable (read_properties flags)
unfolding read_properties
read_properties-Stable flags =
    search (string_stable_rules, optional-Stable, read_timestamp-Stable) depth 40
