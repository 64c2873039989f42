-- ===== src/Amqp/Consumers/Received.antt =====
-- What has been sent to the consumer of a tag, and how `add` and `send` change it.
use gitbook_golang.Prelude.{
  ℕ, ◌≡◌, inl, inr, Option, none, some, List, [], ◌∷◌, ◌++◌, arith, if◌then◌else◌, Option-cases,
  bytes_eq, bytes_eq_refl, bytes_eq→eq,
}
use gitbook_golang.Amqp.Consumers.{Consumers, find, set_feed, open_feed}
use gitbook_golang.Amqp.Consumers.Safe.{IsOpen, find-delete, sent_on}
use gitbook_golang.Amqp.Delivery.{Delivery}
use gitbook_golang.Amqp.Wire.{Bytes}

unfoldable pub feed_log : Consumers → Option ℕ → List Delivery
feed_log s none = []
feed_log s (some i) = (s.feeds i).sent

-- The deliveries of a tag; a tag without a channel has none.
unfoldable pub received : Bytes → Consumers → List Delivery
received tag s = feed_log s (find tag s.chans)

-- A new channel for a tag that has none changes no tag's deliveries.
pub received-open_feed :
    (tag t : Bytes) (s : Consumers)
    → IsOpen s
    → find tag s.chans ≡ none
    → received t (open_feed tag s) ≡ received t s
unfolding received open_feed set_feed find feed_log
received-open_feed tag t s h e = elim (Option-cases (find t s.chans)) [
  | inl n ↦ ground (arith, find-delete tag t s.chans)
  | inr (i, f) ↦ ground (arith, find-delete tag t s.chans, h.made t i f, bytes_eq→eq tag t)
]

-- The delivery is the last one of its tag, and no other tag has got one.
pub received-send :
    (tag t : Bytes) (d : Delivery) (s : Consumers) (i : ℕ)
    → IsOpen s
    → find tag s.chans ≡ some i
    → received t (sent_on i d s) ≡ (if bytes_eq tag t then received t s ++ d ∷ [] else received t s)
unfolding received set_feed feed_log
received-send tag t d s i h e = elim (Option-cases (find t s.chans)) [
  | inl n ↦ ground (arith, bytes_eq→eq tag t)
  | inr (j, f) ↦ ground (arith, h.single tag t i, bytes_eq→eq tag t, bytes_eq_refl tag)
]
