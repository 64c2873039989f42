-- ===== src/Amqp/Consumers.antt =====
-- consumers.go: the map from consumer tags to the channels that feed the consumers' buffers.
pub mod Tag
pub mod Buffer
pub mod Progress
pub mod Received
pub mod Safe
pub mod Calls
pub mod Close
use gitbook_golang.Prelude.{
  ℕ, ◌+◌, Bool, true, false, Option, none, some, List, [], ◌∷◌, ◌++◌, ◌==◌, if◌then◌else◌, bytes_eq,
}
use gitbook_golang.Amqp.Delivery.{Delivery}
use gitbook_golang.Amqp.Wire.{Bytes}

-- A Go channel made by `add`: what has been sent on it, and whether it is closed.
pub record Feed : Type 0 where
  pub sent : List Delivery
  pub closed : Bool

abbrev pub new_feed : Feed
new_feed = record { sent = []; closed = false }

-- `chans` names the channel of each tag by the order in which `add` made them; `made` counts them.
pub record Consumers : Type 0 where
  pub made : ℕ
  pub feeds : ℕ → Feed
  pub chans : List (Bytes × ℕ)
  pub closed : Bool

unfoldable pub make_consumers : Consumers
make_consumers = record { made = 0; feeds = λ i. new_feed; chans = []; closed = false }

unfoldable pub find : Bytes → List (Bytes × ℕ) → Option ℕ
find tag [] = none
find tag ((k, i) ∷ m) = if bytes_eq k tag then some i else find tag m

unfoldable pub delete : Bytes → List (Bytes × ℕ) → List (Bytes × ℕ)
delete tag [] = []
delete tag ((k, i) ∷ m) = let rest = delete tag m in if bytes_eq k tag then rest else (k, i) ∷ rest

unfoldable pub set_feed : (ℕ → Feed) → ℕ → Feed → ℕ → Feed
set_feed feeds i feed j = if j == i then feed else feeds j

-- What a call does: it returns, or it panics on a closed channel.
pub data Called {ℓ} (A : Type ℓ) : Type ℓ where
  returned : A → Called A
  panicked : Called A

-- `close(ch)`; a second `close` panics.
unfoldable pub close_feed : ℕ → Consumers → Called Consumers
close_feed i s =
    if (s.feeds i).closed
    then panicked
    else returned (record s { feeds = set_feed s.feeds i (record (s.feeds i) { closed = true }) })

-- The new channel under its tag; its number is `made`.
unfoldable pub open_feed : Bytes → Consumers → Consumers
open_feed tag s = record s {
  made = s.made + 1;
  feeds = set_feed s.feeds s.made new_feed;
  chans = (tag, s.made) ∷ delete tag s.chans;
}

unfoldable pub and_open : Bytes → Called Consumers → Called Consumers
and_open tag (returned s) = returned (open_feed tag s)
and_open tag panicked = panicked

-- On key conflict, close the previous channel.
unfoldable pub add : Bytes → Consumers → Called Consumers
add tag s = elim (find tag s.chans) [
  | none ↦ returned (open_feed tag s)
  | some prev ↦ and_open tag (close_feed prev s)
]

unfoldable pub cancel : Bytes → Consumers → Called (Consumers × Bool)
cancel tag s = elim (find tag s.chans) [
  | none ↦ returned (s, false)
  | some ch ↦ elim (close_feed ch (record s { chans = delete tag s.chans })) [
    | returned t ↦ returned (t, true)
    | panicked ↦ panicked
  ]
]

-- `buffer <- msg`; a send on a closed channel panics.
unfoldable pub send_feed : ℕ → Delivery → Consumers → Called Consumers
send_feed i msg s =
    if (s.feeds i).closed
    then panicked
    else returned (record s {
      feeds = set_feed s.feeds i (record (s.feeds i) { sent = (s.feeds i).sent ++ msg ∷ [] });
    })

unfoldable pub send : Bytes → Delivery → Consumers → Called (Consumers × Bool)
send tag msg s = elim (find tag s.chans) [
  | none ↦ returned (s, false)
  | some buffer ↦ elim (send_feed buffer msg s) [
    | returned t ↦ returned (t, true)
    | panicked ↦ panicked
  ]
]

unfoldable pub and_close : Called Consumers → (Consumers → Called Consumers) → Called Consumers
and_close (returned s) rest = rest s
and_close panicked rest = panicked

-- Each channel of the map is taken out of it and closed.
unfoldable pub close_all : List (Bytes × ℕ) → Consumers → Called Consumers
close_all [] s = returned s
close_all ((tag, i) ∷ m) s =
    and_close (close_feed i (record s { chans = delete tag s.chans })) (λ t. close_all m t)

-- `close(subs.closed)`; a second `close` panics. That the goroutines end is waited for.
unfoldable pub close : Consumers → Called Consumers
close s = if s.closed then panicked else close_all s.chans (record s { closed = true })
