-- ===== src/Amqp/Confirms/Arrivals/InOrder.antt =====
-- Confirmations that arrive one by one are handed on in the order of the tags (confirms.go).
use gitbook_golang.Prelude.{
  ℕ, suc, ◌-◌, ◌^◌, ◌≤◌, ◌<◌, ◌≡◌, ◌⊎◌, inl, inr, none, some, List, length,
}
use gitbook_golang.Amqp.Confirms.{Confirmation, Confirms}
use gitbook_golang.Amqp.Confirms.Arrivals.{ones, arrive, firsts, replicate, Arrivals}
use gitbook_golang.Amqp.Confirms.Arrivals.Held.{
  ones-Rests, after_publishing, after_publishing-Waits, length-firsts,
}

-- After fewer than 2^64 - 2 publishings, confirmations of them arrive one by one, in any order and each
-- once: `One` returns on all of them, and each listener has got the confirmations of the tags from 1 to
-- some `k`, in the order of the tags and without a gap, and that of `k + 1` has not arrived, unless
-- nothing past `k` was published.
pub ones-firsts :
    (n p : ℕ) (cs : List Confirmation)
    → p < 2 ^ 64 - 2
    → Arrivals p (λ tag. none) cs
    → (t : Confirms) × (k : ℕ) × (ones cs (after_publishing n p) ≡ some t)
      × (t.listeners ≡ replicate n (firsts (arrive cs (λ tag. none)) k))
      × (length (firsts (arrive cs (λ tag. none)) k) ≡ k)
      × ((p ≤ k) ⊎ (arrive cs (λ tag. none) (suc k) ≡ none))
ones-firsts n p cs small a =
    let (t, e, (h, w)) =
      ones-Rests p cs (λ tag. none) n (after_publishing n p) small (after_publishing-Waits n p) a in
    (
      t,
      h.settled,
      e,
      h.got,
      length-firsts (arrive cs (λ tag. none)) h.settled h.full,
      elim w [ inl x ↦ inl (rw h.published at x) | inr y ↦ inr y ],
    )
