-- ===== src/Amqp/Field/Loops.antt =====
-- Fields, and the loops over the items of an array and the entries of a table, written and read.
use gitbook_golang.Prelude.{
  ℕ, zero, suc, ◌+◌, ◌*◌, ◌^◌, ◌<◌, ◌≡◌, refl, [], ◌∷◌, ◌++◌, arith, length, length-append,
}
use gitbook_golang.Amqp.Field.{
  Value, decimal, array, table, Items, no_items, item, Table, no_entries, entry, set,
}
use gitbook_golang.Amqp.Field.Contents.{array_codec, table_codec, length-sized, length-table}
use gitbook_golang.Amqp.Field.Distinct.{Distinct, extend, extend-Distinct}
use gitbook_golang.Amqp.Field.Encodable.{Fits}
use gitbook_golang.Amqp.Field.Read.{
  read_decimal, after_item, read_value, read_field, array_loop, table_loop,
}
use gitbook_golang.Amqp.Field.Write.{
  write_type, as_longstr, write_field, write_items, write_entries,
}
use gitbook_golang.Amqp.Strings.{read_shortstr, shortstr}
use gitbook_golang.Amqp.Wire.{
  Bytes, eof, ok, Reader, fail, and_then, ◌>>=◌, done, ◌>>◌, read_uint, write_uint,
}
use gitbook_golang.Amqp.Wire.Codec.{Codec, seq, reads_written, Codec-map}
use gitbook_golang.Amqp.Wire.Shrinks.{read_uint-nil}
use gitbook_golang.Amqp.Wire.Words.{uint}

-- With enough fuel `read_field` takes the written value off the front of any input.
pub record FieldCodec (v : Value) : Type 0 where
  pub bytes : Bytes
  pub writes : write_field v ≡ done bytes
  pub reads :
      (f : ℕ) (rest : Bytes) → 2 * length bytes < f → read_field f (bytes ++ rest) ≡ ok v rest

pub record ItemsCodec (vs : Items) : Type 0 where
  pub bytes : Bytes
  pub writes : write_items vs ≡ done bytes
  pub reads : (f : ℕ) → 2 * length bytes + 1 < f → array_loop f bytes ≡ ok vs []

pub record EntriesCodec (t : Table) : Type 0 where
  pub bytes : Bytes
  pub writes : write_entries t ≡ done bytes
  pub reads :
      (f : ℕ) (acc : Table)
      → 2 * length bytes + 1 < f
      → table_loop f acc bytes ≡ ok (extend acc t) []

-- A value whose reading calls no loop.
pub plain :
    (v : Value)
    → ((items : Reader Items) (entries : Reader Table)
        → Codec (write_field v) (read_uint 1 >>= read_value items entries) v)
    → FieldCodec v
unfolding read_field
plain v k =
    let c = k (fail eof) (fail eof) in
    record { bytes = c.bytes; writes = c.writes; reads = λ f. plain_reads f c.bytes c.writes }
  where
    plain_reads :
        (f : ℕ) (xs : Bytes)
        → write_field v ≡ done xs
        → (rest : Bytes) → 2 * length xs < f
        → read_field f (xs ++ rest) ≡ ok v rest
    plain_reads zero xs e rest h = absurd (omega arith)
    plain_reads (suc f) xs e rest h =
        reads_written (k (array_loop f) (table_loop f no_entries)) e rest

-- A value with a content of `n` bytes, whose reading calls a loop for which `Good` holds.
pub composite :
    (v : Value) (n : ℕ) (Good : Reader Items → Reader Table → Type 0)
    → ((items : Reader Items) (entries : Reader Table)
        → Good items entries
        → Codec (write_field v) (read_uint 1 >>= read_value items entries) v)
    → ((ys : Bytes) → write_field v ≡ done ys → n < length ys)
    → ((f : ℕ) → 2 * n + 1 < f → Good (array_loop f) (table_loop f no_entries))
    → FieldCodec v
unfolding read_field
composite v n Good k longer good =
    let c = k _ _ (good (2 * n + 2) (omega arith)) in
    record {
      bytes = c.bytes;
      writes = c.writes;
      reads = λ f rest. reads_with f c.bytes c.writes rest;
    }
  where
    reads_with :
        (f : ℕ) (xs : Bytes)
        → write_field v ≡ done xs
        → (rest : Bytes) → 2 * length xs < f
        → read_field f (xs ++ rest) ≡ ok v rest
    reads_with zero xs e rest h = absurd (omega arith)
    reads_with (suc f) xs e rest h =
        reads_written
          (k (array_loop f) (table_loop f no_entries) (good f (omega (arith, longer xs e)))) e rest

pub array_field :
    (vs : Items) → ItemsCodec vs → Fits (2 ^ 32) (write_items vs) → FieldCodec (array vs)
unfolding write_field read_value write_type
array_field vs c fits =
    let xs = c.bytes in
    let small = fits xs c.writes in
    composite (array vs) (length xs) (λ items entries. items xs ≡ ok vs [])
      (λ items entries e. rw c.writes (
        seq (uint 1 (omega arith)) _
          (Codec-map (array_codec xs items vs small e) _ (λ rest. refl))))
      (λ ys e. length-sized b'A' xs ys (rw c.writes at e)) (λ f h. c.reads f h)

pub table_field :
    (t : Table)
    → EntriesCodec t
    → Distinct t
    → Fits (2 ^ 31) (write_entries t)
    → FieldCodec (table t)
unfolding write_field read_value write_type as_longstr
table_field t c distinct fits =
    let xs = c.bytes in
    let small = fits xs c.writes in
    composite (table t) (length xs) (λ items entries. entries xs ≡ ok t [])
      (λ items entries e. rw c.writes (
        seq (uint 1 (omega arith)) _
          (Codec-map (table_codec xs entries t small e) _ (λ rest. refl))))
      (λ ys e. length-table xs ys small (rw c.writes at e))
      (λ f h. rw (c.reads f no_entries h) (rw (extend-Distinct t distinct)))

pub nonempty :
    (v : Value) (xs : Bytes)
    → ((f : ℕ) (rest : Bytes) → 2 * length xs < f → read_field f (xs ++ rest) ≡ ok v rest)
    → 0 < length xs
unfolding read_field
nonempty v [] h = cc (rw read_uint-nil at (h 1 [] (omega arith)))
nonempty v (x ∷ xs) h = omega arith

pub array_loop-item :
    (v : Value) (vs : Items) (c : FieldCodec v) (d : ItemsCodec vs) (f : ℕ)
    → 2 * length (c.bytes ++ d.bytes) + 1 < f
    → array_loop f (c.bytes ++ d.bytes) ≡ ok (item v vs) []
unfolding read_field after_item
array_loop-item v vs c d zero h = absurd (omega arith)
array_loop-item v vs c d (suc f) h =
    let sizes = length-append c.bytes d.bytes in
    let some_byte = nonempty v c.bytes c.reads in
    rw (c.reads f d.bytes (omega arith), d.reads f (omega arith))

pub item_codec : (v : Value) (vs : Items) → FieldCodec v → ItemsCodec vs → ItemsCodec (item v vs)
unfolding write_field
item_codec v vs c d = record {
  bytes = c.bytes ++ d.bytes;
  writes = rw (c.writes, d.writes);
  reads = array_loop-item v vs c d;
}

pub table_loop-entry :
    (f : ℕ) (acc : Table) (s : Bytes)
    → 0 < length s
    → table_loop (suc f) acc s
      ≡ and_then
          (read_shortstr s)
          (λ key s'. and_then (read_field f s') (λ value. table_loop f (set key value acc)))
unfolding read_field
table_loop-entry f acc [] h = absurd (omega arith)
table_loop-entry f acc (b ∷ s) h = refl

module _ (k : Bytes) (v : Value) (t : Table) (short : length k < 2 ^ 8) (c : FieldCodec v)
    (d : EntriesCodec t) where
  pub entry_bytes : Bytes
  entry_bytes = (shortstr short).bytes ++ (c.bytes ++ d.bytes)

  table_loop_entry :
      (f : ℕ) (acc : Table)
      → 2 * length entry_bytes + 1 < f
      → table_loop f acc entry_bytes ≡ ok (extend (set k v acc) t) []
  unfolding entry_bytes
  table_loop_entry zero acc h = absurd (omega arith)
  table_loop_entry (suc f) acc h =
      let key = shortstr short in
      let sizes = length-append key.bytes (c.bytes ++ d.bytes) in
      let sizes' = length-append c.bytes d.bytes in
      let some_byte = nonempty v c.bytes c.reads in
      rw
        (
          table_loop-entry f acc (key.bytes ++ (c.bytes ++ d.bytes)) (omega arith),
          key.reads (c.bytes ++ d.bytes),
          c.reads f d.bytes (omega arith),
        )
        (d.reads f (set k v acc) (omega arith))

  pub entry_codec : EntriesCodec (entry k v t)
  unfolding write_field extend entry_bytes
  entry_codec = record {
    bytes = entry_bytes;
    writes = rw ((shortstr short).writes, c.writes, d.writes);
    reads = table_loop_entry;
  }

pub decimal_codec :
    {scale value : ℕ}
    → scale < 2 ^ 8
    → value < 2 ^ 32
    → Codec (do write_uint 1 scale; write_uint 4 value) read_decimal (decimal scale value)
unfolding read_decimal
decimal_codec h k = seq (uint 1 h) _ (Codec-map (uint 4 k) _ (λ rest. refl))

pub array_loop-nil : (f : ℕ) → 2 * 0 + 1 < f → array_loop f [] ≡ ok no_items []
unfolding read_field after_item
array_loop-nil zero h = absurd (omega arith)
array_loop-nil (suc zero) h = absurd (omega arith)
array_loop-nil (suc (suc f)) h = rw read_uint-nil

pub table_loop-nil : (f : ℕ) (acc : Table) → 2 * 0 + 1 < f → table_loop f acc [] ≡ ok acc []
unfolding read_field
table_loop-nil zero acc h = absurd (omega arith)
table_loop-nil (suc f) acc h = refl
