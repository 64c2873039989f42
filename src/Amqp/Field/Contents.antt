-- ===== src/Amqp/Field/Contents.antt =====
-- The contents of strings, arrays and tables behind their lengths.
use native.Mathlib.Nat.{mod-eq_of_lt}
use gitbook_golang.Prelude.{
  ℕ, ◌%◌, ◌^◌, ◌<◌, ◌≡◌, refl, ap, Bool, true, false, not, [], ◌++◌, arith, leb, ◌==◌,
  if◌then◌else◌, length, length-append, take-append_length, drop-append_length,
}
use gitbook_golang.Amqp.Field.{unix, Items, Table}
use gitbook_golang.Amqp.Field.Read.{
  limited, nested, read_sized, read_timestamp, read_array, read_entries,
}
use gitbook_golang.Amqp.Field.Write.{unix_seconds, write_type, sized}
use gitbook_golang.Amqp.Strings.{read_longstr, write_longstr, take-length, body, in_range, longstr}
use gitbook_golang.Amqp.Wire.{Bytes, ok, Reader, done, ◌>>◌, be_encode, write_uint}
use gitbook_golang.Amqp.Wire.Codec.{Codec, done-injective, seq, Codec-map}
use gitbook_golang.Amqp.Wire.Words.{length-be_encode, uint}

pub sized_codec : (xs : Bytes) → length xs < 2 ^ 31 → Codec (sized (done xs)) read_sized xs
unfolding sized read_sized
sized_codec xs h =
    let fits : length xs < 2 ^ 32 = omega arith in
    let positive : leb (2 ^ 31) (length xs) ≡ false = ground arith in
    rw (mod-eq_of_lt fits) (seq (uint 4 fits) _ (rw positive (body xs)))

pub string_codec : (xs : Bytes) → length xs < 2 ^ 31 → Codec (sized (done xs)) read_longstr xs
unfolding sized read_longstr
string_codec xs h =
    let fits : length xs < 2 ^ 32 = omega arith in
    rw (mod-eq_of_lt fits) (seq (uint 4 fits) _ (rw (in_range (length xs) h) (body xs)))

pub array_codec :
    (xs : Bytes) (loop : Reader Items) (vs : Items)
    → length xs < 2 ^ 32
    → loop xs ≡ ok vs []
    → Codec (sized (done xs)) (read_array loop) vs
unfolding sized read_array limited
array_codec xs loop vs fits e = rw (mod-eq_of_lt fits) (
    seq (uint 4 fits) _ (record {
      bytes = xs;
      writes = refl;
      reads = λ rest. rw (take-append_length xs rest, drop-append_length xs rest, e);
    }))

pub table_codec :
    (xs : Bytes) (loop : Reader Table) (t : Table)
    → length xs < 2 ^ 31
    → loop xs ≡ ok t []
    → Codec (write_longstr xs) (read_entries loop) t
unfolding read_entries nested
table_codec xs loop t fits e = Codec-map (longstr fits) _ (λ rest. rw e)

pub timestamp_codec :
    {n : ℕ} → n < 2 ^ 64 → Codec (write_uint 8 (unix_seconds (unix n))) read_timestamp (unix n)
unfolding unix_seconds read_timestamp
timestamp_codec h = Codec-map (uint 8 h) _ (λ rest. refl)

pub boolean : (b : Bool) → not ((if b then 1 else 0) == 0) ≡ b
boolean true = refl
boolean false = refl

pub boolean_octet : (b : Bool) → (if b then 1 else 0) < 256
boolean_octet b = ground arith

-- The bytes of a sized content, and of a long string, are more than those of the content.
pub length-sized :
    (c : ℕ) (xs ys : Bytes) → write_type c >> sized (done xs) ≡ done ys → length xs < length ys
unfolding sized write_type write_uint
length-sized c xs ys e =
    let n = length xs % 2 ^ 32 in
    omega (
      arith,
      ap length (done-injective e),
      length-append (be_encode 1 c) (be_encode 4 n ++ xs),
      length-append (be_encode 4 n) xs,
      length-be_encode 1 c,
    )

pub length-write_longstr :
    (xs ys : Bytes) → length xs < 2 ^ 31 → write_longstr xs ≡ done ys → length xs < length ys
unfolding write_longstr write_uint
length-write_longstr xs ys h e =
    let fits : length xs < 2 ^ 32 = omega arith in
    let same : done (be_encode 4 (length xs) ++ xs) ≡ done ys =
      rw (mod-eq_of_lt fits, take-length xs) at e in
    omega (
      arith,
      ap length (done-injective same),
      length-append (be_encode 4 (length xs)) xs,
      length-be_encode 4 (length xs),
    )

pub length-table :
    (xs ys : Bytes)
    → length xs < 2 ^ 31
    → write_type b'F' >> write_longstr xs ≡ done ys
    → length xs < length ys
unfolding write_type write_uint
length-table xs ys h e =
    let c = longstr h in
    let same : done (be_encode 1 b'F' ++ c.bytes) ≡ done ys = rw c.writes at e in
    omega (
      arith,
      ap length (done-injective same),
      length-append (be_encode 1 b'F') c.bytes,
      length-write_longstr xs c.bytes h c.writes,
    )
