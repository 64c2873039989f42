-- ===== src/Amqp/Field/Read.antt =====
-- `readField`, `readTable` and `readArray` of read.go. The three call one another, so the calls are
-- bounded by fuel: a loop and a field each take one unit.
use gitbook_golang.Prelude.{
  ℕ, zero, suc, ◌+◌, ◌*◌, ◌^◌, not, [], ◌∷◌, ◌++◌, leb, ◌==◌, if◌then◌else◌, length, take, drop,
}
use gitbook_golang.Amqp.Field.{
  Time, unix, Value, bool, byte, int16, int32, int64, float32, float64, decimal, string, byte_slice,
  array, time, table, nil, Items, no_items, item, Table, no_entries, set,
}
use gitbook_golang.Amqp.Strings.{read_shortstr, read_longstr}
use gitbook_golang.Amqp.Wire.{
  panicked, Bytes, eof, err_syntax, Outcome, ok, err, out_of_fuel, Reader, pure, fail, and_then,
  ◌>>=◌, read_full, read_uint,
}

-- The bytes that a call left of its own input, in front of the bytes outside that input.
abbrev pub put_back {ℓ} : {A : Type ℓ} → Outcome A → Bytes → Outcome A
put_back (ok a s) outside = ok a (s ++ outside)
put_back (err e s) outside = err e (s ++ outside)
put_back panicked outside = panicked
put_back out_of_fuel outside = out_of_fuel

-- `io.LimitedReader`: the call sees the first `n` bytes of the input at most.
unfoldable pub limited {ℓ} : {A : Type ℓ} → ℕ → Reader A → Reader A
limited n p s = put_back (p (take n s)) (drop n s)

-- A call on a buffer of its own, whose rest is dropped.
abbrev pub put_aside {ℓ} : {A : Type ℓ} → Outcome A → Bytes → Outcome A
put_aside (ok a s) outside = ok a outside
put_aside (err e s) outside = err e outside
put_aside panicked outside = panicked
put_aside out_of_fuel outside = out_of_fuel

unfoldable pub nested {ℓ} : {A : Type ℓ} → Bytes → Reader A → Reader A
nested buffer p s = put_aside (p buffer) s

-- `make([]byte, len)` with a negative int32 panics.
unfoldable pub read_sized : Reader Bytes
read_sized = do len ← read_uint 4; if leb (2 ^ 31) len then (λ s. panicked) else read_full len

unfoldable pub read_timestamp : Reader Time
read_timestamp = do sec ← read_uint 8; pure (unix sec)

unfoldable pub read_decimal : Reader Value
read_decimal = do scale ← read_uint 1; value ← read_uint 4; pure (decimal scale value)

-- `readArray` and `readTable` around their loops.
unfoldable pub read_array : Reader Items → Reader Items
read_array loop = do size ← read_uint 4; limited size loop

unfoldable pub read_entries : Reader Table → Reader Table
read_entries loop = do str ← read_longstr; nested str loop

-- In the loop of `readArray`, EOF ends the array and any other error is returned.
unfoldable pub after_item : Outcome Value → Reader Items → Outcome Items
after_item (ok v s) more = and_then (more s) (λ vs. pure (item v vs))
after_item (err eof s) more = ok no_items s
after_item (err e s) more = err e s
after_item panicked more = panicked
after_item out_of_fuel more = out_of_fuel

-- The `switch` of `readField`, over the loops for arrays and tables.
unfoldable pub read_value : Reader Items → Reader Table → ℕ → Reader Value
read_value items entries typ =
    if typ == b't'
    then (do v ← read_uint 1; pure (bool (not (v == 0))))
    else if typ == b'b'
    then (do v ← read_uint 1; pure (byte v))
    else if typ == b's'
    then (do v ← read_uint 2; pure (int16 v))
    else if typ == b'I'
    then (do v ← read_uint 4; pure (int32 v))
    else if typ == b'l'
    then (do v ← read_uint 8; pure (int64 v))
    else if typ == b'f'
    then (do v ← read_uint 4; pure (float32 v))
    else if typ == b'd'
    then (do v ← read_uint 8; pure (float64 v))
    else if typ == b'D'
    then read_decimal
    else if typ == b'S'
    then (do v ← read_longstr; pure (string v))
    else if typ == b'A'
    then (do v ← read_array items; pure (array v))
    else if typ == b'T'
    then (do v ← read_timestamp; pure (time v))
    else if typ == b'F'
    then (do v ← read_entries entries; pure (table v))
    else if typ == b'x'
    then (do v ← read_sized; pure (byte_slice v))
    else if typ == b'V'
    then pure nil
    else fail err_syntax

unfoldable mutual
  pub read_field : ℕ → Reader Value
  read_field zero s = out_of_fuel
  read_field (suc f) s =
      and_then (read_uint 1 s) (λ typ. read_value (array_loop f) (table_loop f no_entries) typ)

  pub array_loop : ℕ → Reader Items
  array_loop zero s = out_of_fuel
  array_loop (suc f) s = after_item (read_field f s) (array_loop f)

  -- `for nested.Len() > 0`
  pub table_loop : ℕ → Table → Reader Table
  table_loop zero t s = out_of_fuel
  table_loop (suc f) t [] = ok t []
  table_loop (suc f) t (b ∷ s) =
      and_then (read_shortstr (b ∷ s))
        (λ key s'. and_then (read_field f s') (λ value. table_loop f (set key value t)))

-- The length of the buffer bounds the calls on it.
unfoldable pub read_buffer : Bytes → Reader Table
read_buffer str = nested str (table_loop (2 * length str + 2) no_entries)

unfoldable pub read_table : Reader Table
read_table = do str ← read_longstr; read_buffer str
