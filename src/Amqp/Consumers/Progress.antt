-- ===== src/Amqp/Consumers/Progress.antt =====
-- The goroutine `buffer` of a consumer, once its channel is closed, gets to its end.
use gitbook_golang.Prelude.{
  ℕ, ◌+◌, ◌*◌, ◌≤◌, ◌≡◌, refl, Bool, true, false, List, [], ◌∷◌, arith, length, length-append,
}
use gitbook_golang.Amqp.Consumers.Buffer.{
  Step, next, Buffer, feed, close_in, close_subs, range_in, receive, end_inflight, hand_out,
  drop_rest, finish, Reach, here,
}
use gitbook_golang.Amqp.Delivery.{Delivery}

-- The turns that are left to the goroutine: each delivery is received and handed out, `inflight`
-- may become nil, and it returns.
abbrev pub left : Bool → ℕ
left true = 1
left false = 0

unfoldable pub work : Buffer → ℕ
work b = 2 * length b.waiting + length b.queue + left b.inflight + left b.running

-- Whether a step is one of the goroutine.
unfoldable pub own : {b c : Buffer} → Step b c → ℕ
own (feed b d o) = 0
own (close_in b) = 0
own (close_subs b) = 0
own (range_in b d ds r q w) = 1
own (receive b d e ds es r q i w) = 1
own (end_inflight b e es r q i c w) = 1
own (hand_out b d ds r e) = 1
own (drop_rest b d ds r e c) = 1
own (finish b r i w q) = 1

unfoldable pub turns : {b c : Buffer} → Reach b c → ℕ
turns here = 0
turns (next r s) = turns r + own s

Step-closed : {b c : Buffer} → Step b c → b.in_closed ≡ true → c.in_closed ≡ true
Step-closed (feed b d o) h = absurd cc
Step-closed (close_in b) h = refl
Step-closed (close_subs b) h = h
Step-closed (range_in b d ds r q w) h = h
Step-closed (receive b d e ds es r q i w) h = h
Step-closed (end_inflight b e es r q i c w) h = h
Step-closed (hand_out b d ds r e) h = h
Step-closed (drop_rest b d ds r e c) h = h
Step-closed (finish b r i w q) h = h

Reach-closed : {b c : Buffer} → Reach b c → b.in_closed ≡ true → c.in_closed ≡ true
Reach-closed here h = h
Reach-closed (next r s) h = Step-closed s (Reach-closed r h)

Step-work : {b c : Buffer} (s : Step b c) → b.in_closed ≡ true → own s + work c ≤ work b
unfolding own work
Step-work (feed b d o) h = absurd cc
Step-work (close_in b) h = omega arith
Step-work (close_subs b) h = omega arith
Step-work (range_in b d ds r q w) h = rw (q, w) (omega arith)
Step-work (receive b d e ds es r q i w) h = rw w (omega (arith, length-append b.queue (d ∷ [])))
Step-work (end_inflight b e es r q i c w) h = rw i (omega arith)
Step-work (hand_out b d ds r e) h = rw e (omega arith)
Step-work (drop_rest b d ds r e c) h = rw r (omega arith)
Step-work (finish b r i w q) h = rw r (omega arith)

Reach-work : {b c : Buffer} (r : Reach b c) → b.in_closed ≡ true → turns r + work c ≤ work b
unfolding turns
Reach-work here h = omega arith
Reach-work (next r s) h =
    let before = Reach-work r h in let last = Step-work s (Reach-closed r h) in omega arith

-- A turn of the goroutine.
abbrev pub Turns : Buffer → Type 0
Turns b = (c : Buffer) × (s : Step b c) × (own s ≡ 1)

some_turn :
    (b : Buffer) (w q : List Delivery)
    → b.running ≡ true
    → b.in_closed ≡ true
    → b.waiting ≡ w
    → b.queue ≡ q
    → Turns b
unfolding own
some_turn b w (d ∷ ds) r i e f = (_, hand_out b d ds r f, refl)
some_turn b (d ∷ ds) [] r i e f = (_, range_in b d ds r f e, refl)
some_turn b [] [] r i e f = (_, finish b r i e f, refl)

left_le : (b : Bool) → left b ≤ 1
left_le true = omega arith
left_le false = omega arith

-- Once the channel `in` is closed, and whatever others do: the goroutine takes at most two turns for each
-- delivery that waits, one for each in the queue, one to find that `in` is closed, and one to return;
-- and as long as it has not returned, it has a next turn, if the consumer takes what is handed
-- out.
pub closed-Turns :
    {b c : Buffer} (r : Reach b c)
    → b.in_closed ≡ true
    → (turns r ≤ 2 * length b.waiting + length b.queue + 2) × (c.running ≡ true → Turns c)
unfolding work
closed-Turns {b} {c} r h = (
  omega (arith, Reach-work r h, left_le b.inflight, left_le b.running),
  λ e. some_turn c c.waiting c.queue e (Reach-closed r h) refl refl,
)
