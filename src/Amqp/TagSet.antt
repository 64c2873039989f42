-- ===== src/Amqp/TagSet.antt =====
-- `tagSet` of types.go, the heap interface of delivery tags. An index or a pop past the end panics: `none`.
use gitbook_golang.Prelude.{
  ℕ, zero, suc, Bool, Option, none, some, List, [], ◌∷◌, ◌++◌, ltb, length, take,
}

abbrev pub TagSet : Type 0
TagSet = List ℕ

unfoldable pub get_elem? {ℓ} : {A : Type ℓ} → List A → ℕ → Option A
get_elem? [] i = none
get_elem? (x ∷ xs) zero = some x
get_elem? (x ∷ xs) (suc i) = get_elem? xs i

unfoldable pub set_at {ℓ} : {A : Type ℓ} → ℕ → A → List A → List A
set_at i x [] = []
set_at zero x (y ∷ ys) = x ∷ ys
set_at (suc i) x (y ∷ ys) = y ∷ set_at i x ys

unfoldable pub with_elem {ℓ} : {A : Type ℓ} → Option ℕ → (ℕ → Option A) → Option A
with_elem none f = none
with_elem (some x) f = f x

unfoldable pub len : TagSet → ℕ
len tags = length tags

unfoldable pub less : TagSet → ℕ → ℕ → Option Bool
less tags i j =
    with_elem (get_elem? tags i) (λ a. with_elem (get_elem? tags j) (λ b. some (ltb a b)))

unfoldable pub swap : ℕ → ℕ → TagSet → Option TagSet
swap i j tags =
    with_elem (get_elem? tags i)
      (λ a. with_elem (get_elem? tags j) (λ b. some (set_at j a (set_at i b tags))))

unfoldable pub push : ℕ → TagSet → TagSet
push tag tags = tags ++ tag ∷ []

-- The value at the end, and the set without it; the index -1 of an empty set panics.
unfoldable pub pop : TagSet → Option (ℕ × TagSet)
pop [] = none
pop (t ∷ ts) =
    let last = length ts in
    with_elem (get_elem? (t ∷ ts) last) (λ val. some (val, take last (t ∷ ts)))
