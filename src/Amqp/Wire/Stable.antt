-- ===== src/Amqp/Wire/Stable.antt =====
-- What a read does when there are more bytes behind its input.
use gitbook_golang.Prelude.{
  ℕ, ◌≡◌, refl, ◌⊎◌, inl, inr, Bool, true, false, [], ◌∷◌, ◌++◌, arith, leb, if◌then◌else◌, leb→le,
  le→leb, Bool-cases, length, length-append, take-append, drop-append,
}
use gitbook_golang.Amqp.Wire.{
  panicked, Bytes, Error, eof, unexpected_eof, Outcome, ok, err, out_of_fuel, Reader, pure, fail,
  and_then, ◌>>=◌, short_read, read_full, read_uint,
}

-- The same outcome, with `more` behind the bytes that are left.
abbrev pub grown {ℓ} : {A : Type ℓ} → Outcome A → Bytes → Outcome A
grown (ok a s) more = ok a (s ++ more)
grown (err e s) more = err e (s ++ more)
grown panicked more = panicked
grown out_of_fuel more = out_of_fuel

-- The two errors of a read that finds too few bytes, with nothing left.
pub data IsShort {ℓ} {A : Type ℓ} : Outcome A → Type ℓ where
  no_bytes : IsShort (err eof [])
  few_bytes : IsShort (err unexpected_eof [])

-- More bytes behind the input of a read make no difference, unless it found too few.
pub record Stable {ℓ} {A : Type ℓ} (p : Reader A) : Type ℓ where
  pub at : (s more : Bytes) → (p (s ++ more) ≡ grown (p s) more) ⊎ IsShort (p s)

module _ {ℓ} {A : Type ℓ} where
  pub Stable-pure : (a : A) → Stable (pure a)
  Stable-pure a = record { at = λ s more. inl refl }

  pub Stable-fail : (e : Error) → Stable (fail {A = A} e)
  Stable-fail e = record { at = λ s more. inl refl }

  pub Stable-if : (b : Bool) (p q : Reader A) → Stable p → Stable q → Stable (if b then p else q)
  Stable-if true p q h k = h
  Stable-if false p q h k = k

module _ {ℓ κ} {A : Type ℓ} {B : Type κ} where
  bind-Stable :
      (f : A → Reader B) (r r' : Outcome A) (more : Bytes)
      → ((a : A) → Stable (f a))
      → (r' ≡ grown r more) ⊎ IsShort r
      → (and_then r' f ≡ grown (and_then r f) more) ⊎ IsShort (and_then r f)
  bind-Stable f r r' more k (inr no_bytes) = inr no_bytes
  bind-Stable f r r' more k (inr few_bytes) = inr few_bytes
  bind-Stable f (ok a s) r' more k (inl e) = rw e ((k a).at s more)
  bind-Stable f (err e s) r' more k (inl q) = inl (rw q refl)
  bind-Stable f panicked r' more k (inl q) = inl (rw q refl)
  bind-Stable f out_of_fuel r' more k (inl q) = inl (rw q refl)

  pub Stable-bind :
      (p : Reader A) (f : A → Reader B) → Stable p → ((a : A) → Stable (f a)) → Stable (p >>= f)
  Stable-bind p f h k = record {
    at = λ s more. bind-Stable f (p s) (p (s ++ more)) more k (h.at s more);
  }

short_read-IsShort {ℓ} : {A : Type ℓ} (s : Bytes) → IsShort (short_read {A = A} s)
unfolding short_read
short_read-IsShort [] = no_bytes
short_read-IsShort (x ∷ s) = few_bytes

pub read_full-Stable : (n : ℕ) → Stable (read_full n)
unfolding read_full
read_full-Stable n = record {
  at = λ s more. elim (Bool-cases (leb n (length s))) [
    | inl e ↦
        let le = leb→le n (length s) e in
        let longer : leb n (length (s ++ more)) ≡ true =
          le→leb n _ (omega (arith, length-append s more)) in
        inl (rw (e, longer, take-append n s more le, drop-append n s more le) refl)
    | inr e ↦ inr (rw e (short_read-IsShort s))
  ];
}

pub read_uint-Stable : (n : ℕ) → Stable (read_uint n)
unfolding read_uint
read_uint-Stable n = Stable-bind _ _ (read_full-Stable n) (λ bs. Stable-pure _)

pub ruleset stable_rules =
    (Stable-pure, Stable-fail, Stable-if, Stable-bind, read_full-Stable, read_uint-Stable)
