-- ===== src/Sniffer/MyMessage.antt =====
-- mymessage.go: a number and a time in a body. The time is of Go's library: its type and its binary form
-- are parameters.
use native.Mathlib.Nat.{mod-eq_of_lt}
use gitbook_golang.Prelude.{
  ℕ, ◌^◌, ◌<◌, ◌≡◌, refl, true, Option, none, some, ◌++◌, arith, leb, if◌then◌else◌, le→leb, length,
  take, drop, length-append, take-append_length, drop-append_length,
}
use gitbook_golang.Amqp.Wire.{Bytes, be_decode, be_encode}
use gitbook_golang.Amqp.Wire.Words.{length-be_encode, be_decode-be_encode}

pub record MyMessage {ℓ} (Instant : Type ℓ) : Type ℓ where
  pub id : ℕ
  pub start : Instant

-- `Unmarshal` panics where `binary.BigEndian.Uint32` has fewer than four bytes, and returns an error
-- where the time has one.
pub data Unmarshalled {ℓ} (A : Type ℓ) : Type ℓ where
  message : A → Unmarshalled A
  bad_time : Unmarshalled A
  too_short : Unmarshalled A

module _ {ℓ} {Instant : Type ℓ} (marshal_time : Instant → Option Bytes)
    (unmarshal_time : Bytes → Option Instant) where
  unfoldable pub with_id : ℕ → Option Bytes → Option Bytes
  with_id id none = none
  with_id id (some startbuf) = some (be_encode 4 id ++ startbuf)

  unfoldable pub marshal : MyMessage Instant → Option Bytes
  marshal m = with_id m.id (marshal_time m.start)

  unfoldable pub with_time : ℕ → Option Instant → Unmarshalled (MyMessage Instant)
  with_time id none = bad_time
  with_time id (some t) = message (record { id = id; start = t })

  unfoldable pub unmarshal : Bytes → Unmarshalled (MyMessage Instant)
  unmarshal b =
      if leb 4 (length b)
      then with_time (be_decode 0 (take 4 b)) (unmarshal_time (drop 4 b))
      else too_short

  -- If the time is read back from its binary form, a message whose number has 32 bits and whose time
  -- has a binary form is read back from what `Marshal` gives.
  pub unmarshal-marshal :
      (m : MyMessage Instant) (startbuf : Bytes)
      → marshal_time m.start ≡ some startbuf
      → unmarshal_time startbuf ≡ some m.start
      → m.id < 2 ^ 32
      → (b : Bytes) × (marshal m ≡ some b) × (unmarshal b ≡ message m)
  unfolding marshal with_id unmarshal with_time
  unmarshal-marshal m startbuf e f small =
      let digits = be_encode 4 m.id in
      let four = length-be_encode 4 m.id in
      let long : leb 4 (length (digits ++ startbuf)) ≡ true =
        le→leb 4 _ (omega (arith, length-append digits startbuf)) in
      let front : take 4 (digits ++ startbuf) ≡ digits =
        rw four at (take-append_length digits startbuf) in
      let back : drop 4 (digits ++ startbuf) ≡ startbuf =
        rw four at (drop-append_length digits startbuf) in
      let value : be_decode 0 digits ≡ m.id =
        omega (arith, be_decode-be_encode 4 0 m.id, mod-eq_of_lt small) in
      (digits ++ startbuf, rw e refl, rw (long, front, back, value, f) refl)
