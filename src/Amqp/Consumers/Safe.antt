-- ===== src/Amqp/Consumers/Safe.antt =====
-- The channels in the map, and `add`, `cancel` and `send` on them (consumers.go).
use gitbook_golang.Prelude.{
  ℕ, ◌<◌, ◌≡◌, inl, inr, Bool, true, false, none, some, List, [], ◌∷◌, ◌++◌, arith, if◌then◌else◌,
  Option-cases, bytes_eq, bytes_eq_refl, bytes_eq→eq,
}
use gitbook_golang.Amqp.Consumers.{
  new_feed, Consumers, make_consumers, find, delete, set_feed, returned, close_feed, open_feed,
  and_open, add, cancel, send_feed, send,
}
use gitbook_golang.Amqp.Delivery.{Delivery}
use gitbook_golang.Amqp.Wire.{Bytes}

-- The channels in the map are open, were made by `add`, and belong to one tag each.
pub record IsOpen (s : Consumers) : Type 0 where
  pub live : (tag : Bytes) (i : ℕ) → find tag s.chans ≡ some i → (s.feeds i).closed ≡ false
  pub made : (tag : Bytes) (i : ℕ) → find tag s.chans ≡ some i → i < s.made
  pub single :
      (tag other : Bytes) (i : ℕ)
      → find tag s.chans ≡ some i
      → find other s.chans ≡ some i
      → tag ≡ other

pub find-delete :
    (k tag : Bytes) (m : List (Bytes × ℕ))
    → find tag (delete k m) ≡ (if bytes_eq k tag then none else find tag m)
unfolding find delete
find-delete k tag [] = ground arith
find-delete k tag ((j, i) ∷ m) = ground (
  arith,
  find-delete k tag m,
  bytes_eq→eq j k,
  bytes_eq→eq j tag,
  bytes_eq→eq k tag,
  bytes_eq_refl k,
)

pub make_consumers-IsOpen : IsOpen make_consumers
unfolding make_consumers find
make_consumers-IsOpen = record {
  live = λ tag i e. cc;
  made = λ tag i e. cc;
  single = λ tag other i e. cc;
}

-- `delete` and `close` together, as `cancel` and `add` do them.
abbrev pub closed_at : Bytes → ℕ → Consumers → Consumers
closed_at tag i s = record s {
  feeds = set_feed s.feeds i (record (s.feeds i) { closed = true });
  chans = delete tag s.chans;
}

pub closed_at-IsOpen :
    (tag : Bytes) (i : ℕ) (s : Consumers)
    → IsOpen s
    → find tag s.chans ≡ some i
    → IsOpen (closed_at tag i s)
unfolding set_feed
closed_at-IsOpen tag i s h e = record {
  live = λ t j f.
      ground (arith, find-delete tag t s.chans, h.live t j, h.single tag t i, bytes_eq_refl tag);
  made = λ t j f. ground (arith, find-delete tag t s.chans, h.made t j);
  single = λ t u j f g.
      ground (arith, find-delete tag t s.chans, find-delete tag u s.chans, h.single t u j);
}

-- A new channel under a tag that has none.
pub open_feed-IsOpen : (tag : Bytes) (s : Consumers) → IsOpen s → IsOpen (open_feed tag s)
unfolding open_feed set_feed find
open_feed-IsOpen tag s h = record {
  live = λ t j f. ground (arith, find-delete tag t s.chans, h.live t j, h.made t j);
  made = λ t j f. ground (arith, find-delete tag t s.chans, h.made t j);
  single = λ t u j f g. ground (
    arith,
    find-delete tag t s.chans,
    find-delete tag u s.chans,
    h.single t u j,
    h.made t j,
    h.made u j,
    bytes_eq→eq tag t,
    bytes_eq→eq tag u,
  );
}

-- A new channel under a tag whose old one is closed.
pub reopen-IsOpen :
    (tag : Bytes) (i : ℕ) (s : Consumers)
    → IsOpen s
    → find tag s.chans ≡ some i
    → IsOpen (
        open_feed tag
          (record s { feeds = set_feed s.feeds i (record (s.feeds i) { closed = true }) }))
unfolding open_feed set_feed find
reopen-IsOpen tag i s h e = record {
  live = λ t j f. ground (
    arith,
    find-delete tag t s.chans,
    h.live t j,
    h.made t j,
    h.single tag t i,
    bytes_eq_refl tag,
  );
  made = λ t j f. ground (arith, find-delete tag t s.chans, h.made t j);
  single = λ t u j f g. ground (
    arith,
    find-delete tag t s.chans,
    find-delete tag u s.chans,
    h.single t u j,
    h.made t j,
    h.made u j,
    bytes_eq→eq tag t,
    bytes_eq→eq tag u,
  );
}

pub found-open_feed : (tag : Bytes) (s : Consumers) → find tag (open_feed tag s).chans ≡ some s.made
unfolding open_feed find
found-open_feed tag s = rw (bytes_eq_refl tag)

new-open_feed : (tag : Bytes) (s : Consumers) → (open_feed tag s).feeds s.made ≡ new_feed
unfolding open_feed set_feed
new-open_feed tag s = ground arith

-- On consumers whose channels are open, `add` does not panic and leaves them so, and the tag has a new
-- channel with nothing sent on it.
pub add-IsOpen :
    (tag : Bytes) (s : Consumers)
    → IsOpen s
    → (t : Consumers) × (add tag s ≡ returned t)
      × IsOpen t
      × (find tag t.chans ≡ some s.made)
      × (t.feeds s.made ≡ new_feed)
unfolding add close_feed and_open
add-IsOpen tag s h = elim (Option-cases (find tag s.chans)) [
  | inl e ↦ (
    open_feed tag s,
    rw (e, add),
    open_feed-IsOpen tag s h,
    found-open_feed tag s,
    new-open_feed tag s,
  )
  | inr (i, e) ↦
      let t : Consumers = record s {
        feeds = set_feed s.feeds i (record (s.feeds i) { closed = true });
      } in
      (
        open_feed tag t,
        rw (e, add, h.live tag i e),
        reopen-IsOpen tag i s h e,
        found-open_feed tag t,
        new-open_feed tag t,
      )
]

-- On consumers whose channels are open, `cancel` does not panic and leaves them so, and the tag has no
-- channel after it.
pub cancel-IsOpen :
    (tag : Bytes) (s : Consumers)
    → IsOpen s
    → (t : Consumers) × (found : Bool) × (cancel tag s ≡ returned (t, found))
      × IsOpen t
      × (find tag t.chans ≡ none)
unfolding cancel close_feed
cancel-IsOpen tag s h = elim (Option-cases (find tag s.chans)) [
  | inl e ↦ (s, false, rw (e, cancel), h, e)
  | inr (i, e) ↦ (
    closed_at tag i s,
    true,
    rw (e, cancel, h.live tag i e),
    closed_at-IsOpen tag i s h e,
    rw (find-delete tag tag s.chans, bytes_eq_refl tag),
  )
]

-- The state after `msg` was sent on channel `i`.
abbrev pub sent_on : ℕ → Delivery → Consumers → Consumers
sent_on i msg s = record s {
  feeds = set_feed s.feeds i (record (s.feeds i) { sent = (s.feeds i).sent ++ msg ∷ [] });
}

sent_on-IsOpen : (i : ℕ) (msg : Delivery) (s : Consumers) → IsOpen s → IsOpen (sent_on i msg s)
unfolding set_feed
sent_on-IsOpen i msg s h = record {
  live = λ t j f. ground (arith, h.live t j);
  made = h.made;
  single = h.single;
}

-- On consumers whose channels are open, `send` to a tag with a channel does not panic and leaves them
-- so, and the delivery is the last one sent on that channel.
pub send-IsOpen :
    (tag : Bytes) (msg : Delivery) (s : Consumers) (i : ℕ)
    → IsOpen s
    → find tag s.chans ≡ some i
    → (send tag msg s ≡ returned (sent_on i msg s, true)) × IsOpen (sent_on i msg s)
unfolding send send_feed
send-IsOpen tag msg s i h e = (rw (e, send, h.live tag i e), sent_on-IsOpen i msg s h)
