-- ===== src/Rabbitmq/Demo.antt =====
-- The loops of `publish` and `consumer` in mq/rabbitmq/main.go. Its MyMessage is that of the sniffer; the
-- client library is what it answers in each turn. The printing is left out.
use gitbook_golang.Prelude.{
  ℕ, ◌+◌, ◌%◌, ◌^◌, ◌≡◌, refl, Bool, true, false, Option, none, some, List, [], ◌∷◌, map, arith,
  length,
}
use gitbook_golang.Amqp.Wire.{Bytes}
use gitbook_golang.Sniffer.MyMessage.{
  MyMessage, Unmarshalled, message, bad_time, too_short, marshal, unmarshal, unmarshal-marshal,
}
use gitbook_golang.Text.{codes}

pub record Publishing : Type 0 where
  pub exchange : Bytes
  pub routing_key : Bytes
  pub mandatory : Bool
  pub immediate : Bool
  pub delivery_mode : ℕ
  pub content_type : Bytes
  pub body : Bytes

-- How far a loop has come: it waits for its next turn, it has returned, or the process has ended, by
-- `log.Fatalf` or by a panic.
pub data Ending : Type 0 where
  waits returned fatal panicked : Ending

-- A turn of `publish`: the context is done, or the clock is read for a message, which the library then
-- publishes or refuses.
pub data Turn {ℓ} (Instant : Type ℓ) : Type ℓ where
  cancelled : Turn Instant
  taken refused : Instant → Turn Instant

pub record Published : Type 0 where
  pub ending : Ending
  pub cnt : ℕ
  pub sent : List Publishing

-- A turn of `consumer`: the context is done, the channel of messages is closed, or a message with its
-- delivery tag comes, whose acknowledgement the library takes or not.
pub data Event : Type 0 where
  stopped closed : Event
  delivered unacknowledged : ℕ → Bytes → Event

pub record Consumed {ℓ} (Instant : Type ℓ) : Type ℓ where
  pub ending : Ending
  pub cnt : ℕ
  pub seen : List (MyMessage Instant)
  pub acked : List ℕ

module _ {ℓ} {Instant : Type ℓ} (marshal_time : Instant → Option Bytes)
    (unmarshal_time : Bytes → Option Instant) where
  -- An error of Marshal is dropped; the body is nil then.
  unfoldable pub body_of : Option Bytes → Bytes
  body_of none = []
  body_of (some b) = b

  unfoldable pub publishing : ℕ → Instant → Publishing
  publishing cnt start = record {
    exchange = [];
    routing_key = codes "qu1";
    mandatory = false;
    immediate = false;
    delivery_mode = 2;
    content_type = codes "text/plain";
    body = body_of (marshal marshal_time unmarshal_time (record { id = cnt; start = start }));
  }

  unfoldable pub publish_loop : ℕ → List (Turn Instant) → Published
  publish_loop cnt [] = record { ending = waits; cnt = cnt; sent = [] }
  publish_loop cnt (cancelled ∷ ts) = record { ending = returned; cnt = cnt; sent = [] }
  publish_loop cnt (refused t ∷ ts) = record { ending = fatal; cnt = cnt; sent = [] }
  publish_loop cnt (taken t ∷ ts) =
      let rest = publish_loop ((cnt + 1) % 2 ^ 32) ts in
      record rest { sent = publishing cnt t ∷ rest.sent }

  unfoldable pub publish : List (Turn Instant) → Published
  publish ts = publish_loop 0 ts

  -- The loop ends here with a message that it has read, or goes on behind its acknowledgement.
  unfoldable pub ends : Ending → ℕ → List (MyMessage Instant) → Consumed Instant
  ends e cnt ms = record { ending = e; cnt = cnt; seen = ms; acked = [] }

  unfoldable pub and_consume :
      ℕ → Unmarshalled (MyMessage Instant) → ℕ → Bool → Consumed Instant → Consumed Instant
  and_consume cnt too_short tag acks rest = ends panicked cnt []
  and_consume cnt bad_time tag acks rest = ends fatal cnt []
  and_consume cnt (message m) tag true rest = record rest {
    seen = m ∷ rest.seen;
    acked = tag ∷ rest.acked;
  }
  and_consume cnt (message m) tag false rest = ends fatal ((cnt + 1) % 2 ^ 64) (m ∷ [])

  unfoldable pub consumer_loop : ℕ → List Event → Consumed Instant
  consumer_loop cnt [] = ends waits cnt []
  consumer_loop cnt (stopped ∷ es) = ends returned cnt []
  consumer_loop cnt (closed ∷ es) = ends returned cnt []
  consumer_loop cnt (delivered tag b ∷ es) =
      and_consume cnt (unmarshal marshal_time unmarshal_time b) tag true
        (consumer_loop ((cnt + 1) % 2 ^ 64) es)
  consumer_loop cnt (unacknowledged tag b ∷ es) =
      and_consume cnt (unmarshal marshal_time unmarshal_time b) tag false
        (consumer_loop ((cnt + 1) % 2 ^ 64) es)

  unfoldable pub consumer : List Event → Consumed Instant
  consumer es = consumer_loop 0 es

  -- The broker hands the bodies on, with the tags from `tag` on.
  unfoldable pub deliveries : ℕ → List Publishing → List Event
  deliveries tag [] = []
  deliveries tag (p ∷ ps) = delivered tag p.body ∷ deliveries (tag + 1) ps

  -- The messages with the numbers from `n` on, in 32 bits.
  unfoldable pub numbered : ℕ → List Instant → List (MyMessage Instant)
  numbered n [] = []
  numbered n (t ∷ ts) = record { id = n % 2 ^ 32; start = t } ∷ numbered (n + 1) ts

  unfoldable pub from : ℕ → List Instant → List ℕ
  from tag [] = []
  from tag (t ∷ ts) = tag ∷ from (tag + 1) ts

  -- Each time has a binary form that is read back.
  pub data AreTimes : List Instant → Type ℓ where
    no_times : AreTimes []
    a_time :
        {t : Instant} {ts : List Instant} (b : Bytes)
        → marshal_time t ≡ some b
        → unmarshal_time b ≡ some t
        → AreTimes ts
        → AreTimes (t ∷ ts)

  loops_lem :
      (n tag c : ℕ) (ts : List Instant)
      → AreTimes ts
      → ((publish_loop (n % 2 ^ 32) (map (λ t. taken t) ts)).ending ≡ waits)
        × (consumer_loop
              (c % 2 ^ 64)
              (deliveries tag (publish_loop (n % 2 ^ 32) (map (λ t. taken t) ts)).sent)
            ≡ record {
              ending = waits;
              cnt = (c + length ts) % 2 ^ 64;
              seen = numbered n ts;
              acked = from tag ts;
            })
  unfolding publish_loop consumer_loop deliveries numbered from and_consume publishing body_of ends
  loops_lem n tag c [] no_times = (refl, ground arith)
  loops_lem n tag c (t ∷ ts) (a_time b e f rest) =
      let (bytes, written, read) =
        unmarshal-marshal marshal_time unmarshal_time (record { id = n % 2 ^ 32; start = t }) b e f
          (omega arith) in
      let (w, r) = loops_lem (n + 1) (tag + 1) (c + 1) ts rest in
      let next : (n % 2 ^ 32 + 1) % 2 ^ 32 ≡ (n + 1) % 2 ^ 32 = omega arith in
      let count : (c % 2 ^ 64 + 1) % 2 ^ 64 ≡ (c + 1) % 2 ^ 64 = omega arith in
      let total : (c + 1 + length ts) % 2 ^ 64 ≡ (c + length (t ∷ ts)) % 2 ^ 64 = omega arith in
      let goes_on : (publish_loop ((n % 2 ^ 32 + 1) % 2 ^ 32) (map (λ x. taken x) ts)).ending
          ≡ waits =
        rw next w in
      (goes_on, rw (next, written, read, count, r, total) refl)

  -- Messages published at times that are read back from their binary forms, as long as the library takes
  -- them and the context is not done, and handed to a new consumer in this order, with tags from 1 on and
  -- acknowledgements that are taken: the publisher goes on; the consumer reads each message with its
  -- number, counted from 0 in 32 bits, and its time, acknowledges each tag, in order, counts all
  -- of them in 64 bits, and goes on.
  pub consumer-publish :
      (ts : List Instant)
      → AreTimes ts
      → ((publish (map (λ t. taken t) ts)).ending ≡ waits)
        × (consumer (deliveries 1 (publish (map (λ t. taken t) ts)).sent) ≡ record {
          ending = waits;
          cnt = length ts % 2 ^ 64;
          seen = numbered 0 ts;
          acked = from 1 ts;
        })
  unfolding publish consumer
  consumer-publish ts h =
      let all : (0 + length ts) % 2 ^ 64 ≡ length ts % 2 ^ 64 = omega arith in
      let (w, r) = loops_lem 0 1 0 ts h in (w, rw all at r)
