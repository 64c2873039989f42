-- ===== src/Amqp/Field/Distinct.antt =====
-- Tables with distinct keys, set entry by entry (read.go).
use gitbook_golang.Prelude.{◌≡◌, refl, sym, ap, ◌∙◌, false, bytes_eq}
use gitbook_golang.Amqp.Field.{Value, Table, no_entries, entry, set}
use gitbook_golang.Amqp.Wire.{Bytes}

-- `k` is no key of the table.
abbrev pub IsFresh : Bytes → Table → Type 0
IsFresh k no_entries = Unit {0}
IsFresh k (entry j w t) = (bytes_eq k j ≡ false) × IsFresh k t

abbrev pub Distinct : Table → Type 0
Distinct no_entries = Unit {0}
Distinct (entry k v t) = IsFresh k t × Distinct t

-- What the loop of `readTable` makes of the entries that it reads.
unfoldable pub extend : Table → Table → Table
extend acc no_entries = acc
extend acc (entry k v t) = extend (set k v acc) t

join : Table → Table → Table
join no_entries u = u
join (entry k v t) u = entry k v (join t u)

join-no_entries : (t : Table) → join t no_entries ≡ t
unfolding join
join-no_entries no_entries = refl
join-no_entries (entry k v t) = ap (entry k v) (join-no_entries t)

join-entry :
    (acc : Table) (k : Bytes) (v : Value) (t : Table)
    → join (join acc (entry k v no_entries)) t ≡ join acc (entry k v t)
unfolding join
join-entry no_entries k v t = refl
join-entry (entry j w acc) k v t = ap (entry j w) (join-entry acc k v t)

IsFresh-join :
    (j : Bytes) (acc : Table) (k : Bytes) (v : Value) (t : Table)
    → IsFresh j (join acc (entry k v t))
    → bytes_eq j k ≡ false
unfolding join
IsFresh-join j no_entries k v t h = h.0
IsFresh-join j (entry i w acc) k v t h = IsFresh-join j acc k v t h.1

set-fresh :
    (acc : Table) (k : Bytes) (v : Value) (t : Table)
    → Distinct (join acc (entry k v t))
    → set k v acc ≡ join acc (entry k v no_entries)
unfolding set join
set-fresh no_entries k v t h = refl
set-fresh (entry j w acc) k v t h =
    rw (IsFresh-join j acc k v t h.0) (ap (entry j w) (set-fresh acc k v t h.1))

extend-join : (acc t : Table) → Distinct (join acc t) → extend acc t ≡ join acc t
unfolding extend
extend-join acc no_entries h = sym (join-no_entries acc)
extend-join acc (entry k v t) h =
    rw (set-fresh acc k v t h)
      (extend-join (join acc (entry k v no_entries)) t (rw join-entry h) ∙ join-entry acc k v t)

pub extend-Distinct : (t : Table) → Distinct t → extend no_entries t ≡ t
unfolding join
extend-Distinct t h = extend-join no_entries t h
