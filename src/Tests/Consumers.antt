-- ===== src/Tests/Consumers.antt =====
-- The consumers and a buffer on concrete tags and deliveries.
use gitbook_golang.Prelude.{
  ◌+◌, ◌*◌, ◌≤◌, ◌≡◌, refl, Bool, true, false, none, some, List, [], ◌∷◌, ◌++◌, bytes_eq, length,
}
use gitbook_golang.Amqp.Consumers.{
  close, new_feed, Consumers, make_consumers, find, returned, open_feed, add, cancel,
}
use gitbook_golang.Amqp.Consumers.Buffer.{
  next, Buffer, start, feed, close_in, range_in, end_inflight, hand_out, finish, Reach, here, fifo,
  drained,
}
use gitbook_golang.Amqp.Consumers.Calls.{
  Call, add_call, cancel_call, send_call, run, put, append_to, is_some, replay, reports, log_at,
  view, run-replay,
}
use gitbook_golang.Amqp.Consumers.Close.{tidy_nil, AllClosed, close-AllClosed, open_feed-Tidy}
use gitbook_golang.Amqp.Consumers.Progress.{own, turns, Turns, closed-Turns}
use gitbook_golang.Amqp.Consumers.Safe.{
  IsOpen, make_consumers-IsOpen, open_feed-IsOpen, add-IsOpen, cancel-IsOpen,
}
use gitbook_golang.Amqp.Delivery.{Delivery, deliver_delivery}
use gitbook_golang.Tests.{some_deliver}

add-IsOpen_example :
    (t : Consumers) × (add (99 ∷ []) make_consumers ≡ returned t)
    × IsOpen t
    × (find (99 ∷ []) t.chans ≡ some 0)
    × (t.feeds 0 ≡ new_feed)
unfolding make_consumers
add-IsOpen_example = add-IsOpen (99 ∷ []) make_consumers make_consumers-IsOpen

-- A consumer for the tag `c`.
abbrev one_consumer : Consumers
one_consumer = open_feed (99 ∷ []) make_consumers

one_consumer-IsOpen : IsOpen one_consumer
one_consumer-IsOpen = open_feed-IsOpen (99 ∷ []) make_consumers make_consumers-IsOpen

cancel-IsOpen_example :
    (t : Consumers) × (found : Bool) × (cancel (99 ∷ []) one_consumer ≡ returned (t, found))
    × IsOpen t
    × (find (99 ∷ []) t.chans ≡ none)
cancel-IsOpen_example = cancel-IsOpen (99 ∷ []) one_consumer one_consumer-IsOpen

-- A delivery of channel 1.
abbrev some_delivery : Delivery
some_delivery = deliver_delivery 1 some_deliver

-- One delivery is sent, received and handed out.
abbrev handed_out : Buffer
handed_out = record {
  sent = some_delivery ∷ [];
  waiting = [];
  queue = [];
  out = some_delivery ∷ [];
  inflight = true;
  in_closed = false;
  subs_closed = false;
  running = true;
}

handed_out-Reach : Reach start handed_out
handed_out-Reach =
    next
      (next (next here (feed start some_delivery refl))
        (range_in _ some_delivery [] refl refl refl))
      (hand_out _ some_delivery [] refl refl)

fifo_example : handed_out.sent ≡ handed_out.out ++ (handed_out.queue ++ handed_out.waiting)
fifo_example = fifo handed_out-Reach

-- The same buffer after `cancel` has closed its channel and the goroutine has returned.
abbrev returned_buffer : Buffer
returned_buffer = record handed_out { in_closed = true; running = false }

returned_buffer-Reach : Reach start returned_buffer
returned_buffer-Reach =
    next (next handed_out-Reach (close_in handed_out)) (finish _ refl refl refl refl)

drained_example : returned_buffer.out ≡ returned_buffer.sent
drained_example = drained returned_buffer-Reach refl refl

-- A consumer, a delivery for it, its cancellation, and another delivery.
abbrev some_calls : List Call
some_calls =
    add_call (99 ∷ [])
    ∷ send_call (99 ∷ []) some_delivery
    ∷ cancel_call (99 ∷ [])
    ∷ send_call (99 ∷ []) some_delivery
    ∷ []

run-replay_example :
    (t : Consumers) × (run some_calls make_consumers
      ≡ returned (t, reports some_calls (view make_consumers)))
    × IsOpen t
    × (view t ≡ replay some_calls (view make_consumers))
run-replay_example = run-replay some_calls make_consumers make_consumers-IsOpen

some_reports : reports some_calls (view make_consumers) ≡ true ∷ true ∷ false ∷ []
unfolding reports is_some put append_to view log_at make_consumers find bytes_eq
some_reports = refl

close-AllClosed_example :
    (t : Consumers) × (close one_consumer ≡ returned t)
    × (t.chans ≡ [])
    × AllClosed t one_consumer.chans
unfolding make_consumers open_feed
close-AllClosed_example =
    close-AllClosed one_consumer one_consumer-IsOpen
      (open_feed-Tidy (99 ∷ []) make_consumers tidy_nil) refl

-- The channel of the buffer is closed with one delivery waiting.
abbrev closed_buffer : Buffer
closed_buffer = record start {
  sent = some_delivery ∷ [];
  waiting = some_delivery ∷ [];
  in_closed = true;
}

-- It is received, `inflight` becomes nil, it is handed out, and the goroutine returns.
abbrev finished_buffer : Buffer
finished_buffer = record closed_buffer {
  waiting = [];
  out = some_delivery ∷ [];
  inflight = false;
  running = false;
}

abbrev finished_buffer-Reach : Reach closed_buffer finished_buffer
finished_buffer-Reach =
    next
      (next
        (next (next here (range_in closed_buffer some_delivery [] refl refl refl))
          (end_inflight _ some_delivery [] refl refl refl refl refl))
        (hand_out _ some_delivery [] refl refl))
      (finish _ refl refl refl refl)

closed-Turns_example :
    (turns finished_buffer-Reach
      ≤ 2 * length closed_buffer.waiting + length closed_buffer.queue + 2)
    × (finished_buffer.running ≡ true → Turns finished_buffer)
closed-Turns_example = closed-Turns finished_buffer-Reach refl

-- The bound is met.
finished_turns : turns finished_buffer-Reach ≡ 4
unfolding turns own
finished_turns = refl
