-- ===== src/Amqp/Strings.antt =====
-- Short and long strings of read.go and write.go: a length octet or a 32-bit length, then the bytes.
use native.Mathlib.Nat.{mod-eq_of_lt}
use gitbook_golang.Prelude.{
  ℕ, ◌-◌, ◌%◌, ◌^◌, ◌<◌, ◌≡◌, refl, false, [], append-nil, arith, ltb, if◌then◌else◌, length, take,
  take-append_length,
}
use gitbook_golang.Amqp.Wire.{
  Bytes, Reader, pure, ◌>>=◌, Written, done, ◌>>◌, read_full, read_uint, write_uint,
}
use gitbook_golang.Amqp.Wire.Codec.{Codec, seq}
use gitbook_golang.Amqp.Wire.Words.{read_full-append, uint}

unfoldable pub read_shortstr : Reader Bytes
read_shortstr = do length ← read_uint 1; read_full length

-- `^uint32(0) >> 1`
abbrev pub max_int32 : ℕ
max_int32 = 2 ^ 31 - 1

-- A length over `max_int32` gives the empty string and no error.
unfoldable pub read_longstr : Reader Bytes
read_longstr = do length ← read_uint 4; if ltb max_int32 length then pure [] else read_full length

unfoldable pub write_shortstr : Bytes → Written
write_shortstr s = let n = length s % 2 ^ 8 in do write_uint 1 n; done (take n s)

unfoldable pub write_longstr : Bytes → Written
write_longstr s = let n = length s % 2 ^ 32 in do write_uint 4 n; done (take n s)

pub take-length : (s : Bytes) → take (length s) s ≡ s
take-length s = rw append-nil at (take-append_length s [])

-- The bytes of a string behind its length.
pub body : (s : Bytes) → Codec (done s) (read_full (length s)) s
body s = record { bytes = s; writes = refl; reads = read_full-append s }

pub shortstr : {s : Bytes} → length s < 256 → Codec (write_shortstr s) read_shortstr s
unfolding write_shortstr read_shortstr
shortstr {s} h = rw (mod-eq_of_lt h, take-length s) (seq (uint 1 h) read_full (body s))

pub in_range : (n : ℕ) → n < 2 ^ 31 → ltb max_int32 n ≡ false
in_range n h = ground arith

pub longstr : {s : Bytes} → length s < 2 ^ 31 → Codec (write_longstr s) read_longstr s
unfolding write_longstr read_longstr
longstr {s} h =
    let fits : length s < 2 ^ 32 = omega arith in
    rw (mod-eq_of_lt fits, take-length s)
      (seq (uint 4 fits) _ (rw (in_range (length s) h) (body s)))
