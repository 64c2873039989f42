-- ===== src/Amqp/Wire/Gives.antt =====
-- What holds for every value that a read gives.
use gitbook_golang.Prelude.{
  ℕ, ◌≡◌, refl, sym, ap, subst, ◌≢◌, inl, inr, [], ◌∷◌, arith, leb, ◌==◌, if◌then◌else◌, Bool-cases,
  length, take, drop,
}
use gitbook_golang.Amqp.Confirms.{one}
use gitbook_golang.Amqp.Wire.{
  panicked, Bytes, Error, Outcome, ok, err, out_of_fuel, Reader, pure, fail, and_then, ◌>>=◌,
  short_read, read_full,
}

pub record Gives {ℓ} {A : Type ℓ} (P : A → Type ℓ) (p : Reader A) : Type ℓ where
  pub at : (s rest : Bytes) (a : A) → p s ≡ ok a rest → P a

module _ {ℓ} {A : Type ℓ} where
  given : A → Outcome A → A
  given d (ok a s) = a
  given d (err e s) = d
  given d panicked = d
  given d out_of_fuel = d

  pub ok-injective : (a b : A) (s t : Bytes) → ok a s ≡ ok b t → a ≡ b
  unfolding given
  ok-injective a b s t e = ap (λ r. given a r) e

module _ {ℓ} {A : Type ℓ} {P : A → Type ℓ} where
  pub Gives-pure : (a : A) → P a → Gives P (pure a)
  Gives-pure a h = record { at = λ s rest b e. subst P (ok-injective a b s rest e) h }

  pub Gives-fail : (e : Error) → Gives P (fail e)
  Gives-fail e = record { at = λ s rest a h. absurd cc }

  pub Gives-if :
      (n k : ℕ) (p q : Reader A)
      → (n ≡ k → Gives P p)
      → Gives P q
      → Gives P (if n == k then p else q)
  Gives-if n k p q h g = elim (Bool-cases (n == k)) [
    | inl y ↦ rw y (h (ground arith))
    | inr x ↦ rw x g
  ]

module _ {ℓ} {A B : Type ℓ} where
  pub and_then-ok :
      (r : Outcome A) (f : A → Reader B) (rest : Bytes) (b : B)
      → and_then r f ≡ ok b rest
      → (a : A) × (t : Bytes) × (r ≡ ok a t) × (f a t ≡ ok b rest)
  and_then-ok (ok a t) f rest b e = (a, t, refl, e)
  and_then-ok (err x t) f rest b e = absurd cc
  and_then-ok panicked f rest b e = absurd cc
  and_then-ok out_of_fuel f rest b e = absurd cc

module _ {ℓ} {A B : Type ℓ} {P : B → Type ℓ} where
  pub Gives-bind : (p : Reader A) (f : A → Reader B) → ((a : A) → Gives P (f a)) → Gives P (p >>= f)
  Gives-bind p f h = record {
    at = λ s rest b e. let (a, t, one, two) = and_then-ok (p s) f rest b e in (h a).at t rest b two;
  }

short_read-ne-ok : (s xs rest : Bytes) → short_read s ≢ ok xs rest
unfolding short_read
short_read-ne-ok [] xs rest e = cc
short_read-ne-ok (x ∷ s) xs rest e = cc

-- What is read are the first octets.
pub read_full-take : (n : ℕ) (s rest xs : Bytes) → read_full n s ≡ ok xs rest → xs ≡ take n s
unfolding read_full
read_full-take n s rest xs e = elim (Bool-cases (leb n (length s))) [
  | inl y ↦ sym (ok-injective (take n s) xs (drop n s) rest (rw y at e))
  | inr short ↦ absurd (short_read-ne-ok s xs rest (rw short at e))
]
