-- ===== src/Amqp/Consumers/Buffer.antt =====
-- The goroutine `buffer` of a consumer, between the channel that feeds it and the consumer (consumers.go).
use gitbook_golang.Prelude.{
  ◌≡◌, refl, sym, ◌∙◌, Bool, true, false, List, [], ◌∷◌, ◌++◌, append_assoc, append-nil,
}
use gitbook_golang.Amqp.Delivery.{Delivery}

-- `waiting` is what has been sent on the channel `in` and not been received; `out` is what the
-- consumer has got. `sent` is all that was ever sent on `in`; `subs_closed` is that `subs.closed` is
-- closed. `inflight` is that the variable of this name is not nil.
pub record Buffer : Type 0 where
  pub sent : List Delivery
  pub waiting : List Delivery
  pub queue : List Delivery
  pub out : List Delivery
  pub inflight : Bool
  pub in_closed : Bool
  pub subs_closed : Bool
  pub running : Bool

abbrev pub start : Buffer
start = record {
  sent = [];
  waiting = [];
  queue = [];
  out = [];
  inflight = true;
  in_closed = false;
  subs_closed = false;
  running = true;
}

-- The senders of `in`, and the cases of the loops. With nothing in the queue, `range` takes the next
-- delivery off `in`, or the goroutine returns when `in` is closed and empty. With deliveries in the
-- queue, the goroutine returns if `subs.closed` is closed, or it receives from `inflight`, a delivery
-- or that `in` is closed and empty, which makes `inflight` nil, or it hands the head of the queue out.
pub data Step : Buffer → Buffer → Type 0 where
  feed :
      (b : Buffer) (d : Delivery)
      → b.in_closed ≡ false
      → Step b (record b { sent = b.sent ++ d ∷ []; waiting = b.waiting ++ d ∷ [] })
  close_in : (b : Buffer) → Step b (record b { in_closed = true })
  close_subs : (b : Buffer) → Step b (record b { subs_closed = true })
  range_in :
      (b : Buffer) (d : Delivery) (ds : List Delivery)
      → b.running ≡ true
      → b.queue ≡ []
      → b.waiting ≡ d ∷ ds
      → Step b (record b { waiting = ds; queue = d ∷ [] })
  receive :
      (b : Buffer) (d e : Delivery) (ds es : List Delivery)
      → b.running ≡ true
      → b.queue ≡ e ∷ es
      → b.inflight ≡ true
      → b.waiting ≡ d ∷ ds
      → Step b (record b { waiting = ds; queue = b.queue ++ d ∷ [] })
  end_inflight :
      (b : Buffer) (e : Delivery) (es : List Delivery)
      → b.running ≡ true
      → b.queue ≡ e ∷ es
      → b.inflight ≡ true
      → b.in_closed ≡ true
      → b.waiting ≡ []
      → Step b (record b { inflight = false })
  hand_out :
      (b : Buffer) (d : Delivery) (ds : List Delivery)
      → b.running ≡ true
      → b.queue ≡ d ∷ ds
      → Step b (record b { queue = ds; out = b.out ++ d ∷ [] })
  drop_rest :
      (b : Buffer) (d : Delivery) (ds : List Delivery)
      → b.running ≡ true
      → b.queue ≡ d ∷ ds
      → b.subs_closed ≡ true
      → Step b (record b { running = false })
  finish :
      (b : Buffer)
      → b.running ≡ true
      → b.in_closed ≡ true
      → b.waiting ≡ []
      → b.queue ≡ []
      → Step b (record b { running = false })

pub data Reach (b : Buffer) : Buffer → Type 0 where
  here : Reach b b
  next : {c d : Buffer} → Reach b c → Step c d → Reach b d

-- Every delivery that was sent is with the consumer, in the queue or waiting, in the order of sending.
abbrev pub InOrder : Buffer → Type 0
InOrder b = b.sent ≡ b.out ++ (b.queue ++ b.waiting)

Step-InOrder : {b c : Buffer} → Step b c → InOrder b → InOrder c
Step-InOrder (feed b d _) h = rw h (simp append_assoc)
Step-InOrder (close_in b) h = h
Step-InOrder (close_subs b) h = h
Step-InOrder (range_in b d ds _ q w) h = h ∙ rw (q, w) refl
Step-InOrder (receive b d e ds es _ _ _ w) h = h ∙ rw w (simp append_assoc)
Step-InOrder (end_inflight b e es _ _ _ _ _) h = h
Step-InOrder (hand_out b d ds _ e) h = h ∙ rw e (simp append_assoc)
Step-InOrder (drop_rest b d ds _ e _) h = h
Step-InOrder (finish b _ _ _ _) h = h

Reach-InOrder : {b c : Buffer} → InOrder b → Reach b c → InOrder c
Reach-InOrder h here = h
Reach-InOrder h (next r st) = Step-InOrder st (Reach-InOrder h r)

-- However the goroutine is scheduled, the consumer has got a prefix of what was sent, in the order
-- of sending and without gaps; the rest stands in the queue and in the channel.
pub fifo : {b : Buffer} → Reach start b → b.sent ≡ b.out ++ (b.queue ++ b.waiting)
fifo r = Reach-InOrder refl r

-- A goroutine that has returned has nothing left to hand out, unless `subs.closed` was closed.
data Drained (b : Buffer) : Type 0 where
  is_running : b.running ≡ true → Drained b
  was_closed : b.subs_closed ≡ true → Drained b
  is_empty : b.in_closed ≡ true → b.queue ≡ [] → b.waiting ≡ [] → Drained b

Step-Drained : {b c : Buffer} → Step b c → Drained b → Drained c
Step-Drained (feed b d o) (is_running r) = is_running r
Step-Drained (feed b d o) (was_closed r) = was_closed r
Step-Drained (feed b d o) (is_empty i q w) = absurd cc
Step-Drained (close_in b) (is_running r) = is_running r
Step-Drained (close_in b) (was_closed r) = was_closed r
Step-Drained (close_in b) (is_empty i q w) = is_empty refl q w
Step-Drained (close_subs b) h = was_closed refl
Step-Drained (range_in b d ds r q w) h = is_running r
Step-Drained (receive b d e ds es r q i w) h = is_running r
Step-Drained (end_inflight b e es r q i c w) h = is_running r
Step-Drained (hand_out b d ds r e) h = is_running r
Step-Drained (drop_rest b d ds r e c) h = was_closed c
Step-Drained (finish b r i w q) h = is_empty i q w

Reach-Drained : {b c : Buffer} → Drained b → Reach b c → Drained c
Reach-Drained h here = h
Reach-Drained h (next r st) = Step-Drained st (Reach-Drained h r)

all_out :
    {b : Buffer}
    → Drained b
    → InOrder b
    → b.running ≡ false
    → b.subs_closed ≡ false
    → b.out ≡ b.sent
all_out (is_running r) h s c = absurd cc
all_out (was_closed r) h s c = absurd cc
all_out (is_empty i q w) h s c = sym (h ∙ rw (q, w) (append-nil _))

-- When the goroutine has returned and `subs.closed` is open, the consumer has got everything that was
-- ever sent, in the order of sending.
pub drained :
    {b : Buffer} → Reach start b → b.running ≡ false → b.subs_closed ≡ false → b.out ≡ b.sent
drained r s c = all_out (Reach-Drained (is_running refl) r) (fifo r) s c
