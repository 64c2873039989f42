-- ===== src/Amqp/Field/Stable.antt =====
-- Strings and tables with more bytes behind (read.go).
use gitbook_golang.Prelude.{◌+◌, ◌*◌, ◌≡◌, refl, inl, ◌++◌, length}
use gitbook_golang.Amqp.Field.{no_entries}
use gitbook_golang.Amqp.Field.Read.{
  put_aside, nested, read_timestamp, table_loop, read_buffer, read_table,
}
use gitbook_golang.Amqp.Strings.{read_shortstr, read_longstr}
use gitbook_golang.Amqp.Wire.{panicked, Bytes, Outcome, ok, err, out_of_fuel}
use gitbook_golang.Amqp.Wire.Stable.{grown, Stable, stable_rules}

pub read_shortstr-Stable : Stable read_shortstr
unfolding read_shortstr
read_shortstr-Stable = search stable_rules depth 20

pub read_longstr-Stable : Stable read_longstr
unfolding read_longstr
read_longstr-Stable = search stable_rules depth 20

pub read_timestamp-Stable : Stable read_timestamp
unfolding read_timestamp
read_timestamp-Stable = search stable_rules depth 20

put_aside-grown {ℓ} :
    {A : Type ℓ} (r : Outcome A) (s more : Bytes)
    → put_aside r (s ++ more) ≡ grown (put_aside r s) more
put_aside-grown (ok a t) s more = refl
put_aside-grown (err e t) s more = refl
put_aside-grown panicked s more = refl
put_aside-grown out_of_fuel s more = refl

read_buffer-Stable : (str : Bytes) → Stable (read_buffer str)
unfolding read_buffer nested
read_buffer-Stable str = record {
  at = λ s more. inl (put_aside-grown (table_loop (2 * length str + 2) no_entries str) s more);
}

pub read_table-Stable : Stable read_table
unfolding read_table
read_table-Stable = search (stable_rules, read_longstr-Stable, read_buffer-Stable) depth 20

pub ruleset string_stable_rules =
    (stable_rules, read_shortstr-Stable, read_longstr-Stable, read_table-Stable)
