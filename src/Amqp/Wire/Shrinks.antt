-- ===== src/Amqp/Wire/Shrinks.antt =====
-- What a read leaves of its input.
use gitbook_golang.Prelude.{
  ℕ, suc, ◌+◌, ◌-◌, ◌≤◌, ◌<◌, ◌≡◌, refl, ap, ◌≢◌, inl, inr, Bool, true, false, [], ◌∷◌, arith, leb,
  if◌then◌else◌, leb→le, Bool-cases, length, take, drop, length-take, length-drop,
}
use gitbook_golang.Amqp.Wire.{
  panicked, Bytes, Error, eof, Outcome, ok, err, out_of_fuel, Reader, pure, fail, and_then, ◌>>=◌,
  short_read, read_full, be_decode, read_uint,
}

-- At most `n` bytes are left, whether the read returned, failed or panicked.
pub data Ends {ℓ} {A : Type ℓ} (n : ℕ) : Outcome A → Type ℓ where
  ok_ends : {a : A} {s : Bytes} → length s ≤ n → Ends n (ok a s)
  err_ends : {e : Error} {s : Bytes} → length s ≤ n → Ends n (err e s)
  panic_ends : Ends n panicked

-- On an input shorter than `n`.
pub record Shrinks {ℓ} {A : Type ℓ} (n : ℕ) (p : Reader A) : Type ℓ where
  pub at : (s : Bytes) → length s < n → Ends (length s) (p s)

module _ {ℓ} {A : Type ℓ} where
  pub Ends-le : {m n : ℕ} {r : Outcome A} → Ends m r → m ≤ n → Ends n r
  Ends-le (ok_ends h) k = ok_ends (omega arith)
  Ends-le (err_ends h) k = err_ends (omega arith)
  Ends-le panic_ends k = panic_ends

  pub Ends-ne : {n : ℕ} {r : Outcome A} → Ends n r → r ≢ out_of_fuel
  Ends-ne (ok_ends h) = cc
  Ends-ne (err_ends h) = cc
  Ends-ne panic_ends = cc

  pub Shrinks-pure : (n : ℕ) (a : A) → Shrinks n (pure a)
  Shrinks-pure n a = record { at = λ s h. ok_ends (omega arith) }

  pub Shrinks-fail : (n : ℕ) (e : Error) → Shrinks n (fail {A = A} e)
  Shrinks-fail n e = record { at = λ s h. err_ends (omega arith) }

  pub Shrinks-if :
      (n : ℕ) (b : Bool) (p q : Reader A)
      → Shrinks n p
      → Shrinks n q
      → Shrinks n (if b then p else q)
  Shrinks-if n true p q h k = h
  Shrinks-if n false p q h k = k

module _ {ℓ κ} {A : Type ℓ} {B : Type κ} where
  pub Ends-bind :
      {m n : ℕ} {r : Outcome A} (f : A → Reader B)
      → Ends m r
      → ((a : A) (s : Bytes) → length s ≤ m → Ends n (f a s))
      → m ≤ n
      → Ends n (and_then r f)
  Ends-bind f (ok_ends h) k le = k _ _ h
  Ends-bind f (err_ends h) k le = err_ends (omega arith)
  Ends-bind f panic_ends k le = panic_ends

  pub Shrinks-bind :
      (n : ℕ) (p : Reader A) (f : A → Reader B)
      → Shrinks n p
      → ((a : A) → Shrinks n (f a))
      → Shrinks n (p >>= f)
  Shrinks-bind n p f h k = record {
    at = λ s lt.
        Ends-bind f (h.at s lt) (λ a s' le. Ends-le ((k a).at s' (omega arith)) le) (omega arith);
  }

short_read-Ends {ℓ} : {A : Type ℓ} (n : ℕ) (s : Bytes) → Ends n (short_read {A = A} s)
unfolding short_read
short_read-Ends n [] = err_ends (omega arith)
short_read-Ends n (x ∷ s) = err_ends (omega arith)

-- After a read of `k` bytes at least `k` bytes less are left, or none.
pub read_full-Ends : (k : ℕ) (s : Bytes) → Ends (length s - k) (read_full k s)
unfolding read_full
read_full-Ends k s = elim (Bool-cases (leb k (length s))) [
  | inl e ↦ rw e (ok_ends (omega (arith, length-drop k s)))
  | inr e ↦ rw e (short_read-Ends (length s - k) s)
]

pub read_uint-Ends : (k : ℕ) (s : Bytes) → Ends (length s - k) (read_uint k s)
unfolding read_uint
read_uint-Ends k s = Ends-bind _ (read_full-Ends k s) (λ bs s' h. ok_ends h) (omega arith)

-- Inversion of a successful chain.
pub and_then-eq-ok {ℓ κ} :
    {A : Type ℓ} {B : Type κ} (r : Outcome A) (f : A → Reader B) {b : B} {s : Bytes}
    → and_then r f ≡ ok b s
    → (a : A) × (s' : Bytes) × (r ≡ ok a s') × (f a s' ≡ ok b s)
and_then-eq-ok (ok a s') f h = (a, s', refl, h)
and_then-eq-ok (err e s') f h = cc
and_then-eq-ok panicked f h = cc
and_then-eq-ok out_of_fuel f h = cc

short_read-ne-ok : (s bs s' : Bytes) → short_read s ≢ ok bs s'
unfolding short_read
short_read-ne-ok [] bs s' = cc
short_read-ne-ok (x ∷ s) bs s' = cc

pub read_full-eq-ok :
    (k : ℕ) (s bs s' : Bytes)
    → read_full k s ≡ ok bs s'
    → (length bs ≡ k) × (length bs + length s' ≡ length s)
unfolding read_full
read_full-eq-ok k s bs s' e = elim (Bool-cases (leb k (length s))) [
  | inl p ↦
      let enough = leb→le k (length s) p in
      let taken : bs ≡ take k s = cc (rw p at e) in
      let left : s' ≡ drop k s = cc (rw p at e) in
      let count = length-take k s in
      let rest = length-drop k s in rw (taken, left) (omega arith, omega arith)
  | inr p ↦ absurd (short_read-ne-ok s bs s' (rw p at e))
]

pub read_uint-eq-ok :
    (k : ℕ) (s : Bytes) {v : ℕ} {s' : Bytes} → read_uint k s ≡ ok v s' → length s ≡ k + length s'
unfolding read_uint
read_uint-eq-ok k s e =
    let (bs, r, full, same) = and_then-eq-ok (read_full k s) _ e in
    let sizes = read_full-eq-ok k s bs r full in
    let left : length r ≡ length _ = ap (elim [ ok a t ↦ length t | _ ↦ 0 ]) same in omega arith

pub read_full-Shrinks : (n k : ℕ) → Shrinks n (read_full k)
read_full-Shrinks n k = record { at = λ s h. Ends-le (read_full-Ends k s) (omega arith) }

pub read_uint-Shrinks : (n k : ℕ) → Shrinks n (read_uint k)
read_uint-Shrinks n k = record { at = λ s h. Ends-le (read_uint-Ends k s) (omega arith) }

pub read_uint-octet : (b : ℕ) (s : Bytes) → read_uint 1 (b ∷ s) ≡ ok b s
unfolding read_uint read_full be_decode
read_uint-octet b s = ground arith

pub read_full-nil : (k : ℕ) → read_full (suc k) [] ≡ err eof []
unfolding read_full short_read
read_full-nil k = ground arith

pub read_uint-nil : read_uint 1 [] ≡ err eof []
unfolding read_uint read_full short_read
read_uint-nil = refl

pub ruleset shrink_rules =
    (Shrinks-pure, Shrinks-fail, Shrinks-if, Shrinks-bind, read_full-Shrinks, read_uint-Shrinks)
