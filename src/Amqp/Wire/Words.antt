-- ===== src/Amqp/Wire/Words.antt =====
-- Integers of a fixed width in network byte order.
use native.Mathlib.Nat.{
  pow-succ', div-add-mod', mul-add-mod_self_left, mod-eq_of_lt, mod-lt, one-le-pow,
}
use gitbook_golang.Prelude.{
  ℕ, zero, suc, ◌+◌, ◌*◌, ◌/◌, ◌%◌, ◌^◌, ◌≤◌, ◌<◌, ◌≡◌, refl, sym, ap, ◌∙◌, ◌++◌, arith, le→leb,
  length, length-append, take-append_length, drop-append_length,
}
use gitbook_golang.Amqp.Wire.{Bytes, ok, read_full, be_decode, be_encode, read_uint, write_uint}
use gitbook_golang.Amqp.Wire.Codec.{Codec}

pub read_full-append : (xs rest : Bytes) → read_full (length xs) (xs ++ rest) ≡ ok xs rest
unfolding read_full
read_full-append xs rest = rw (
  le→leb (length xs) (length (xs ++ rest)) (omega (arith, length-append xs rest)),
  take-append_length xs rest,
  drop-append_length xs rest,
)

pub length-be_encode : (k v : ℕ) → length (be_encode k v) ≡ k
unfolding be_encode
length-be_encode zero v = refl
length-be_encode (suc k) v = ap suc (length-be_encode k v)

-- The remainder modulo 256 * m is the next digit and the remainder modulo m.
mod_split : (v m : ℕ) → 0 < m → v / m % 256 * m + v % m ≡ v % (256 * m)
mod_split v m h =
    let whole : v ≡ 256 * m * (v / m / 256) + (v / m % 256 * m + v % m) =
      omega (arith, div-add-mod' v m, ap (λ (t : ℕ). t * m) (div-add-mod' (v / m) 256)) in
    let below : v / m % 256 ≤ 255 = omega arith in
    let small : v / m % 256 * m + v % m < 256 * m = grind (arith, mod-lt v h) in
    sym (ap (λ (t : ℕ). t % (256 * m)) whole ∙ mul-add-mod_self_left _ _ _ ∙ mod-eq_of_lt small)

pub be_decode-be_encode :
    (k acc v : ℕ) → be_decode acc (be_encode k v) ≡ acc * 256 ^ k + v % 256 ^ k
unfolding be_decode be_encode
be_decode-be_encode zero acc v = omega arith
be_decode-be_encode (suc k) acc v =
    rw (pow-succ' 256 k, be_decode-be_encode k (acc * 256 + v / 256 ^ k % 256) v)
      (omega (arith, mod_split v (256 ^ k) (one-le-pow k 256 (omega arith))))

uint_reads :
    (k v : ℕ) (rest : Bytes) → v < 256 ^ k → read_uint k (be_encode k v ++ rest) ≡ ok v rest
unfolding read_uint
uint_reads k v rest h =
    let value : be_decode 0 (be_encode k v) ≡ v =
      omega (arith, be_decode-be_encode k 0 v, mod-eq_of_lt h) in
    let full : read_full k (be_encode k v ++ rest) ≡ ok (be_encode k v) rest =
      rw (length-be_encode k v) at (read_full-append (be_encode k v) rest) in
    rw (full, value)

-- A number below 256 ^ k is read back from its k bytes.
pub uint : (k : ℕ) {v : ℕ} → v < 256 ^ k → Codec (write_uint k v) (read_uint k) v
unfolding write_uint
uint k {v} h = record {
  bytes = be_encode k v;
  writes = refl;
  reads = λ rest. uint_reads k v rest h;
}
