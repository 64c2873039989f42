-- ===== src/Amqp/Confirms/Arrivals.antt =====
-- Confirmations that arrive one by one, in any order (confirms.go).
pub mod Held
pub mod InOrder
use gitbook_golang.Prelude.{ℕ, zero, suc, ◌≤◌, ◌<◌, ◌≡◌, Option, none, some, List, [], ◌∷◌, ◌++◌}
use gitbook_golang.Amqp.Confirms.{Confirmation, Confirms, update, one}

-- `One` on each confirmation, in the order of their arrival.
unfoldable pub and_ones : Option Confirms → (Confirms → Option Confirms) → Option Confirms
and_ones (some s) rest = rest s
and_ones none rest = none

unfoldable pub ones : List Confirmation → Confirms → Option Confirms
ones [] s = some s
ones (c ∷ cs) s = and_ones (one c s) (λ t. ones cs t)

-- A view that knows nothing of counters: which confirmation each tag has had.
abbrev pub Known : Type 0
Known = ℕ → Option Confirmation

unfoldable pub arrive : List Confirmation → Known → Known
arrive [] r = r
arrive (c ∷ cs) r = arrive cs (update r c.delivery_tag (some c))

abbrev pub at_most_one : Option Confirmation → List Confirmation
at_most_one none = []
at_most_one (some c) = c ∷ []

-- The confirmations of the tags from 1 to `k`, in the order of the tags.
unfoldable pub firsts : Known → ℕ → List Confirmation
firsts r zero = []
firsts r (suc k) = firsts r k ++ at_most_one (r (suc k))

abbrev pub replicate {ℓ} : {A : Type ℓ} → ℕ → A → List A
replicate zero a = []
replicate (suc n) a = a ∷ replicate n a

-- The tags are among the published ones, and each comes once.
pub data Arrivals (published : ℕ) : Known → List Confirmation → Type 0 where
  no_arrival : {r : Known} → Arrivals published r []
  arrival :
      {r : Known} {c : Confirmation} {cs : List Confirmation}
      → 0 < c.delivery_tag
      → c.delivery_tag ≤ published
      → r c.delivery_tag ≡ none
      → Arrivals published (update r c.delivery_tag (some c)) cs
      → Arrivals published r (c ∷ cs)
