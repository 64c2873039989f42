-- ===== src/Amqp/Properties/Ends.antt =====
-- `parseHeaderFrame` on any bytes: its property list (read.go).
use gitbook_golang.Prelude.{ℕ, Bool}
use gitbook_golang.Amqp.Field.Ends.{read_timestamp-Shrinks, string_rules}
use gitbook_golang.Amqp.Properties.Read.{optional, read_properties}
use gitbook_golang.Amqp.Wire.{Reader}
use gitbook_golang.Amqp.Wire.Shrinks.{Shrinks, shrink_rules}

optional-Shrinks {ℓ} :
    {A : Type ℓ} (n : ℕ) (present : Bool) (zero_value : A) (p : Reader A)
    → Shrinks n p
    → Shrinks n (optional present zero_value p)
unfolding optional
optional-Shrinks n present zero_value p h = search (shrink_rules)

pub read_properties-Shrinks : (n flags : ℕ) → Shrinks n (read_properties flags)
unfolding read_properties
read_properties-Shrinks n flags =
    search (string_rules, optional-Shrinks, read_timestamp-Shrinks) depth 40
