-- ===== src/Amqp/Wire.antt =====
-- What read.go and write.go take from io and encoding/binary: a reader consumes the bytes that are
-- left of its input, a writer appends to a buffer.
pub mod Codec
pub mod Words
pub mod Shrinks
pub mod Gives
pub mod Stable
use gitbook_golang.Prelude.{
  ℕ, zero, suc, ◌+◌, ◌*◌, ◌/◌, ◌%◌, ◌^◌, Bool, true, false, List, [], ◌∷◌, ◌++◌, leb, if◌then◌else◌,
  length, take, drop,
}

abbrev pub Bytes : Type 0
Bytes = List ℕ

-- The error values of the package, and the two of io that a short read gives.
pub data Error : Type 0 where
  eof unexpected_eof : Error
  err_syntax err_frame err_field_type : Error
  heartbeat_payload missing_method : Error
  unknown_class : ℕ → Error
  unknown_method : ℕ → ℕ → Error

-- What a read returns, with the bytes that it has left. `panicked` is a Go panic; `out_of_fuel` is
-- no outcome of the program.
pub data Outcome {ℓ} (A : Type ℓ) : Type ℓ where
  ok : A → Bytes → Outcome A
  err : Error → Bytes → Outcome A
  panicked out_of_fuel : Outcome A

abbrev pub Reader {ℓ} : Type ℓ → Type ℓ
Reader A = Bytes → Outcome A

module _ {ℓ} {A : Type ℓ} where
  abbrev pub pure : A → Reader A
  pure a s = ok a s

  abbrev pub fail : Error → Reader A
  fail e s = err e s

module _ {ℓ κ} {A : Type ℓ} {B : Type κ} where
  abbrev pub and_then : Outcome A → (A → Reader B) → Outcome B
  and_then (ok a s) f = f a s
  and_then (err e s) f = err e s
  and_then panicked f = panicked
  and_then out_of_fuel f = out_of_fuel

  infixl 5 ◌>>=◌
  abbrev pub ◌>>=◌ : Reader A → (A → Reader B) → Reader B
  ◌>>=◌ p f = λ s. and_then (p s) f

-- What a write leaves: the bytes written, or an error. On an error every caller discards the buffer.
pub data Written : Type 0 where
  done : Bytes → Written
  failed : Error → Written

-- `return` at the end of a write.
abbrev pub return : Written
return = done []

abbrev pub and_write : Written → Written → Written
and_write (done xs) (done ys) = done (xs ++ ys)
and_write (done xs) (failed e) = failed e
and_write (failed e) w = failed e

infixr 5 ◌>>◌
abbrev pub ◌>>◌ : Written → Written → Written
v >> w = and_write v w

-- `io.ReadFull`: EOF if there is no byte at all, ErrUnexpectedEOF if there are too few. Both have
-- consumed what there was.
short_read {ℓ} : {A : Type ℓ} → Bytes → Outcome A
short_read [] = err eof []
short_read (x ∷ xs) = err unexpected_eof []

unfoldable pub read_full : ℕ → Reader Bytes
unfolding short_read
read_full n s = if leb n (length s) then ok (take n s) (drop n s) else short_read s

-- Network byte order.
unfoldable pub be_decode : ℕ → Bytes → ℕ
be_decode acc [] = acc
be_decode acc (b ∷ bs) = be_decode (acc * 256 + b) bs

unfoldable pub be_encode : ℕ → ℕ → Bytes
be_encode zero v = []
be_encode (suc k) v = (v / 256 ^ k % 256) ∷ be_encode k v

-- `binary.Read` into an unsigned integer of `k` bytes, or a signed one read as its bit pattern.
unfoldable pub read_uint : ℕ → Reader ℕ
read_uint k = do bs ← read_full k; pure (be_decode 0 bs)

-- `binary.Write` of an integer of `k` bytes.
unfoldable pub write_uint : ℕ → ℕ → Written
write_uint k v = done (be_encode k v)
