-- ===== src/Amqp/Field/Ends.antt =====
-- `readField` and `readTable` on any bytes (read.go).
use gitbook_golang.Prelude.{
  ℕ, zero, suc, ◌+◌, ◌-◌, ◌*◌, ◌≤◌, ◌<◌, ◌≡◌, refl, ◌≢◌, inl, inr, [], ◌∷◌, arith, ltb,
  if◌then◌else◌, Bool-cases, length, take, drop, length-append, length-take, length-drop,
}
use gitbook_golang.Amqp.Field.{Value, Items, Table, no_entries, set}
use gitbook_golang.Amqp.Field.Read.{
  put_back, limited, put_aside, nested, read_sized, read_timestamp, read_decimal, read_array,
  read_entries, after_item, read_value, read_field, array_loop, table_loop, read_buffer, read_table,
}
use gitbook_golang.Amqp.Strings.{read_shortstr, max_int32, read_longstr}
use gitbook_golang.Amqp.Wire.{
  panicked, Bytes, Error, eof, Outcome, ok, err, out_of_fuel, Reader, pure, and_then, read_full,
  read_uint,
}
use gitbook_golang.Amqp.Wire.Shrinks.{
  Ends, ok_ends, err_ends, panic_ends, Shrinks, Ends-le, Ends-ne, Ends-bind, and_then-eq-ok,
  read_full-eq-ok, read_uint-eq-ok, read_uint-octet, read_uint-nil, shrink_rules,
}

pub read_shortstr-Shrinks : (n : ℕ) → Shrinks n read_shortstr
unfolding read_shortstr
read_shortstr-Shrinks n = search shrink_rules

pub read_longstr-Shrinks : (n : ℕ) → Shrinks n read_longstr
unfolding read_longstr
read_longstr-Shrinks n = search shrink_rules

panic-Shrinks {ℓ} : {A : Type ℓ} (n : ℕ) → Shrinks {A = A} n (λ s. panicked)
panic-Shrinks n = record { at = λ s h. panic_ends }

read_sized-Shrinks : (n : ℕ) → Shrinks n read_sized
unfolding read_sized
read_sized-Shrinks n = search (shrink_rules, panic-Shrinks)

pub read_timestamp-Shrinks : (n : ℕ) → Shrinks n read_timestamp
unfolding read_timestamp
read_timestamp-Shrinks n = search shrink_rules

read_decimal-Shrinks : (n : ℕ) → Shrinks n read_decimal
unfolding read_decimal
read_decimal-Shrinks n = search shrink_rules

put_back-Ends {ℓ} :
    {A : Type ℓ} {m : ℕ} {r : Outcome A} (outside : Bytes)
    → Ends m r
    → Ends (m + length outside) (put_back r outside)
put_back-Ends outside (ok_ends {s} h) = ok_ends (omega (arith, length-append s outside))
put_back-Ends outside (err_ends {s} h) = err_ends (omega (arith, length-append s outside))
put_back-Ends outside panic_ends = panic_ends

limited-Shrinks {ℓ} : {A : Type ℓ} (n k : ℕ) (p : Reader A) → Shrinks n p → Shrinks n (limited k p)
unfolding limited
limited-Shrinks n k p h = record {
  at = λ s lt.
      Ends-le (put_back-Ends (drop k s) (h.at (take k s) (omega (arith, length-take k s))))
        (omega (arith, length-take k s, length-drop k s));
}

read_array-Shrinks : (n : ℕ) (loop : Reader Items) → Shrinks n loop → Shrinks n (read_array loop)
unfolding read_array
read_array-Shrinks n loop h = search (shrink_rules, limited-Shrinks)

put_aside-Ends {ℓ} :
    {A : Type ℓ} {m n : ℕ} {r : Outcome A} (outside : Bytes)
    → Ends m r
    → length outside ≤ n
    → Ends n (put_aside r outside)
put_aside-Ends outside (ok_ends h) k = ok_ends k
put_aside-Ends outside (err_ends h) k = err_ends k
put_aside-Ends outside panic_ends k = panic_ends

longstr_body :
    (n : ℕ) (r str s' : Bytes) {m : ℕ}
    → (if ltb max_int32 n then pure [] else read_full n) r ≡ ok str s'
    → length r ≤ m
    → (length str ≤ m) × (length s' ≤ m)
longstr_body n r str s' {m} e h = elim (Bool-cases (ltb max_int32 n)) [
  | inl p ↦
      let same : ok [] r ≡ ok str s' = rw p at e in
      let empty : str ≡ [] = cc in let left : s' ≡ r = cc in rw (empty, left) (omega arith, h)
  | inr p ↦ let sizes = read_full-eq-ok n r str s' (rw p at e) in (omega arith, omega arith)
]

-- A long string is shorter than the input that it was read from.
read_longstr-length :
    (s str s' : Bytes)
    → read_longstr s ≡ ok str s'
    → (length str ≤ length s) × (length s' ≤ length s)
unfolding read_longstr
read_longstr-length s str s' e =
    let (n, r, four, more) = and_then-eq-ok (read_uint 4 s) _ e in
    let used = read_uint-eq-ok 4 s four in longstr_body n r str s' more (omega arith)

nested-Ends :
    (n : ℕ) (loop : Reader Table)
    → Shrinks n loop
    → (s : Bytes) → length s < n
    → (r : Outcome Bytes) → read_longstr s ≡ r
    → Ends (length s) r
    → Ends (length s) (and_then r (λ str s'. put_aside (loop str) s'))
nested-Ends n loop h s lt r e (ok_ends {a = str} {s = s'} k) =
    put_aside-Ends s' (h.at str (omega (arith, read_longstr-length s str s' e))) k
nested-Ends n loop h s lt r e (err_ends k) = err_ends k
nested-Ends n loop h s lt r e panic_ends = panic_ends

read_entries-Shrinks :
    (n : ℕ) (loop : Reader Table) → Shrinks n loop → Shrinks n (read_entries loop)
unfolding read_entries nested
read_entries-Shrinks n loop h = record {
  at = λ s lt. nested-Ends n loop h s lt _ refl ((read_longstr-Shrinks n).at s lt);
}

read_value-Shrinks :
    (n : ℕ) (items : Reader Items) (entries : Reader Table) (typ : ℕ)
    → Shrinks n items
    → Shrinks n entries
    → Shrinks n (read_value items entries typ)
unfolding read_value
read_value-Shrinks n items entries typ hi he =
    search
      (
        shrink_rules, read_sized-Shrinks, read_timestamp-Shrinks, read_decimal-Shrinks,
        read_longstr-Shrinks, read_array-Shrinks, read_entries-Shrinks,
      )
      depth 40

after_item-err :
    {n : ℕ} (e : Error) (s : Bytes) (more : Reader Items)
    → length s ≤ n
    → Ends n (after_item (err e s) more)
unfolding after_item
after_item-err eof s more h = ok_ends h
after_item-err _ s more h = err_ends h

after_item-Ends :
    {m n : ℕ} {r : Outcome Value} (more : Reader Items)
    → Ends m r
    → ((v : Value) (s : Bytes) → length s ≤ m → Ends n (more s))
    → m ≤ n
    → Ends n (after_item r more)
unfolding after_item
after_item-Ends more (ok_ends {a = v} {s = s} h) k le =
    Ends-bind _ (k v s h) (λ vs s' h'. ok_ends h') (omega arith)
after_item-Ends more (err_ends {e} {s} h) k le = after_item-err e s more (omega arith)
after_item-Ends more panic_ends k le = panic_ends

-- With fuel above twice the input (and one unit for a loop), nothing runs out of it.
mutual
  unfolding read_field after_item

  field-Ends : (f : ℕ) (s : Bytes) → 2 * length s < f → Ends (length s - 1) (read_field f s)
  field-Ends zero s h = absurd (omega arith)
  field-Ends (suc f) [] h = rw read_uint-nil (err_ends (omega arith))
  field-Ends (suc f) (b ∷ s) h = rw (read_uint-octet b s) (
      Ends-le
        ((read_value-Shrinks (suc (length s)) (array_loop f) (table_loop f no_entries) b
            (record { at = λ w lt. array_loop-Ends f w (omega arith) })
            (record { at = λ w lt. table_loop-Ends f no_entries w (omega arith) })).at
          s (omega arith))
        (omega arith))

  array_loop-Ends : (f : ℕ) (s : Bytes) → 2 * length s + 1 < f → Ends (length s) (array_loop f s)
  array_loop-Ends zero s h = absurd (omega arith)
  array_loop-Ends (suc zero) [] h = absurd (omega arith)
  array_loop-Ends (suc (suc f)) [] h = rw read_uint-nil (ok_ends (omega arith))
  array_loop-Ends (suc f) (b ∷ s) h =
      after_item-Ends (array_loop f) (field-Ends f (b ∷ s) (omega arith))
        (λ v s' le. Ends-le (array_loop-Ends f s' (omega arith)) (omega arith)) (omega arith)

  table_loop-Ends :
      (f : ℕ) (t : Table) (s : Bytes) → 2 * length s + 1 < f → Ends (length s) (table_loop f t s)
  table_loop-Ends zero t s h = absurd (omega arith)
  table_loop-Ends (suc f) t [] h = ok_ends (omega arith)
  table_loop-Ends (suc f) t (b ∷ s) h =
      Ends-bind _ ((read_shortstr-Shrinks (2 + length s)).at (b ∷ s) (omega arith))
        (λ key s' le.
          Ends-bind _ (field-Ends f s' (omega arith))
            (λ v s'' le'. Ends-le (table_loop-Ends f (set key v t) s'' (omega arith)) (omega arith))
            (omega arith))
        (omega arith)

read_buffer-Shrinks : (n : ℕ) (str : Bytes) → Shrinks n (read_buffer str)
unfolding read_buffer nested
read_buffer-Shrinks n str = record {
  at = λ s lt.
      put_aside-Ends s (table_loop-Ends (2 * length str + 2) no_entries str (omega arith))
        (omega arith);
}

pub read_table-Shrinks : (n : ℕ) → Shrinks n read_table
unfolding read_table
read_table-Shrinks n = search (shrink_rules, read_longstr-Shrinks, read_buffer-Shrinks)

-- `readTable` returns, fails or panics on every input: the fuel that it hands out is never used up.
pub read_table-ne-out_of_fuel : (s : Bytes) → read_table s ≢ out_of_fuel
read_table-ne-out_of_fuel s = Ends-ne ((read_table-Shrinks (suc (length s))).at s (omega arith))

pub ruleset string_rules =
    (shrink_rules, read_shortstr-Shrinks, read_longstr-Shrinks, read_table-Shrinks)
