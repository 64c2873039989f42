-- ===== src/Tests/Confirms.antt =====
-- Confirmations of three publishings, the second one early.
use gitbook_golang.Prelude.{
  ℕ, suc, ◌≤◌, ◌<◌, ◌≡◌, refl, ◌⊎◌, true, none, some, List, [], ◌∷◌, arith, ◌==◌, if◌then◌else◌,
  length,
}
use gitbook_golang.Amqp.Confirms.{Confirmation, Confirms, update, one, multiple}
use gitbook_golang.Amqp.Confirms.Arrivals.{
  ones, arrive, firsts, replicate, Arrivals, no_arrival, arrival,
}
use gitbook_golang.Amqp.Confirms.Arrivals.Held.{after_publishing}
use gitbook_golang.Amqp.Confirms.Arrivals.InOrder.{ones-firsts}
use gitbook_golang.Amqp.Confirms.Notified.{IsKeyed, Notified}
use gitbook_golang.Amqp.Confirms.Order.{with_one, one-Notified, with_multiple, multiple-Notified}

-- A listener, three publishings, and a confirmation of the second.
abbrev early : Confirms
early = record {
  listeners = [] ∷ [];
  sequencer = λ tag. if tag == 2 then some (record { delivery_tag = 2; ack = true }) else none;
  published = 3;
  expecting = 1;
}

early-IsKeyed : IsKeyed early
early-IsKeyed = record { key = λ tag c e. ground arith }

-- A confirmation of the first publishing.
abbrev first : Confirmation
first = record { delivery_tag = 1; ack = true }

one-Notified_example :
    (t : Confirms) × (one first early ≡ some t) × Notified (with_one first early) early t
one-Notified_example = one-Notified first early (omega arith) (omega arith) early-IsKeyed

multiple-Notified_example :
    (t : Confirms) × (multiple first early ≡ some t)
    × Notified (with_multiple first early) early t
    × (1 < t.expecting)
multiple-Notified_example = multiple-Notified first early (omega arith) (omega arith) early-IsKeyed

-- The confirmations of the tags 2, 1 and 3, in this order.
abbrev unordered : List Confirmation
unordered = record first { delivery_tag = 2 } ∷ first ∷ record first { delivery_tag = 3 } ∷ []

unordered-Arrivals : Arrivals 3 (λ tag. none) unordered
unfolding update
unordered-Arrivals =
    arrival (omega arith) (omega arith) refl (
      arrival (omega arith) (omega arith) refl
        (arrival (omega arith) (omega arith) refl no_arrival))

ones-firsts_example :
    (t : Confirms) × (k : ℕ) × (ones unordered (after_publishing 1 3) ≡ some t)
    × (t.listeners ≡ replicate 1 (firsts (arrive unordered (λ tag. none)) k))
    × (length (firsts (arrive unordered (λ tag. none)) k) ≡ k)
    × ((3 ≤ k) ⊎ (arrive unordered (λ tag. none) (suc k) ≡ none))
ones-firsts_example = ones-firsts 1 3 unordered (omega arith) unordered-Arrivals
