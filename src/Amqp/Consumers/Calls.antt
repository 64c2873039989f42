-- ===== src/Amqp/Consumers/Calls.antt =====
-- Any sequence of calls on consumers, and what a client of them may expect (consumers.go).
use gitbook_golang.Prelude.{
  ℕ, ◌<◌, ◌≡◌, refl, ap, fun_ext, ◌∙◌, inl, inr, Bool, true, false, Option, none, some, List, [],
  ◌∷◌, ◌++◌, arith, if◌then◌else◌, Bool-cases, Option-cases, bytes_eq, bytes_eq_refl, bytes_eq→eq,
}
use gitbook_golang.Amqp.Consumers.{
  Consumers, find, set_feed, Called, returned, panicked, close_feed, open_feed, and_open, add,
  cancel, send,
}
use gitbook_golang.Amqp.Consumers.Safe.{
  IsOpen, find-delete, closed_at, closed_at-IsOpen, open_feed-IsOpen, reopen-IsOpen, sent_on,
  send-IsOpen,
}
use gitbook_golang.Amqp.Delivery.{Delivery}
use gitbook_golang.Amqp.Wire.{Bytes}

pub data Call : Type 0 where
  add_call cancel_call : Bytes → Call
  send_call : Bytes → Delivery → Call

-- The calls one after another, with what each has reported; `add` reports nothing.
unfoldable pub and_report : Bool → Called (Consumers × List Bool) → Called (Consumers × List Bool)
and_report b (returned (s, bs)) = returned (s, b ∷ bs)
and_report b panicked = panicked

unfoldable pub with_added :
    Called Consumers → (Consumers → Called (Consumers × List Bool)) → Called (Consumers × List Bool)
with_added (returned s) rest = rest s
with_added panicked rest = panicked

unfoldable pub with_reported :
    Called (Consumers × Bool)
    → (Consumers → Called (Consumers × List Bool))
    → Called (Consumers × List Bool)
with_reported (returned (s, b)) rest = and_report b (rest s)
with_reported panicked rest = panicked

unfoldable pub run : List Call → Consumers → Called (Consumers × List Bool)
run [] s = returned (s, [])
run (add_call tag ∷ cs) s = with_added (add tag s) (λ t. run cs t)
run (cancel_call tag ∷ cs) s = with_reported (cancel tag s) (λ t. run cs t)
run (send_call tag d ∷ cs) s = with_reported (send tag d s) (λ t. run cs t)

-- What a client sees: for each tag the deliveries of its consumer, or that it has none.
abbrev pub View : Type 0
View = Bytes → Option (List Delivery)

unfoldable pub put : Bytes → Option (List Delivery) → View → View
put tag log v t = if bytes_eq tag t then log else v t

unfoldable pub append_to : Delivery → Option (List Delivery) → Option (List Delivery)
append_to d none = none
append_to d (some log) = some (log ++ d ∷ [])

unfoldable pub is_some : Option (List Delivery) → Bool
is_some none = false
is_some (some log) = true

-- The calls on a view: no numbers of channels, and nothing that can panic.
unfoldable pub replay : List Call → View → View
replay [] v = v
replay (add_call tag ∷ cs) v = replay cs (put tag (some []) v)
replay (cancel_call tag ∷ cs) v = replay cs (put tag none v)
replay (send_call tag d ∷ cs) v = replay cs (put tag (append_to d (v tag)) v)

unfoldable pub reports : List Call → View → List Bool
reports [] v = []
reports (add_call tag ∷ cs) v = reports cs (put tag (some []) v)
reports (cancel_call tag ∷ cs) v = is_some (v tag) ∷ reports cs (put tag none v)
reports (send_call tag d ∷ cs) v = is_some (v tag) ∷ reports cs (put tag (append_to d (v tag)) v)

unfoldable pub log_at : Consumers → Option ℕ → Option (List Delivery)
log_at s none = none
log_at s (some i) = some (s.feeds i).sent

unfoldable pub view : Consumers → View
view s tag = log_at s (find tag s.chans)

open_feed-view :
    (tag u : Bytes) (s : Consumers)
    → ((i : ℕ) → find u s.chans ≡ some i → i < s.made)
    → view (open_feed tag s) u ≡ put tag (some []) (view s) u
unfolding view put log_at open_feed set_feed find
open_feed-view tag u s h = elim (Option-cases (find u s.chans)) [
  | inl n ↦ ground (arith, find-delete tag u s.chans)
  | inr (i, e) ↦ ground (arith, find-delete tag u s.chans, h i e)
]

-- That a channel is closed does not show in a view.
closed_feed : ℕ → Consumers → Consumers
closed_feed i s = record s { feeds = set_feed s.feeds i (record (s.feeds i) { closed = true }) }

closed_feed-view : (i : ℕ) (s : Consumers) (u : Bytes) → view (closed_feed i s) u ≡ view s u
unfolding view log_at closed_feed set_feed
closed_feed-view i s u = elim (Option-cases (find u s.chans)) [
  | inl n ↦ rw n refl
  | inr (j, e) ↦ rw e (ground arith)
]

add-view :
    (tag : Bytes) (s : Consumers)
    → IsOpen s
    → (t : Consumers) × (add tag s ≡ returned t) × IsOpen t × (view t ≡ put tag (some []) (view s))
unfolding add close_feed and_open closed_feed put
add-view tag s h = elim (Option-cases (find tag s.chans)) [
  | inl e ↦ (
    open_feed tag s,
    rw (e, add) refl,
    open_feed-IsOpen tag s h,
    fun_ext (λ u. open_feed-view tag u s (h.made u)),
  )
  | inr (i, e) ↦ (
    open_feed tag (closed_feed i s),
    rw (e, add, h.live tag i e) refl,
    reopen-IsOpen tag i s h e,
    fun_ext (λ u.
        open_feed-view tag u (closed_feed i s) (h.made u)
        ∙ ap (λ l. if bytes_eq tag u then some [] else l) (closed_feed-view i s u)),
  )
]

closed_at-view :
    (tag u : Bytes) (i : ℕ) (s : Consumers) → view (closed_at tag i s) u ≡ put tag none (view s) u
unfolding view put log_at set_feed
closed_at-view tag u i s = elim (Option-cases (find u s.chans)) [
  | inl n ↦ ground (arith, find-delete tag u s.chans)
  | inr (j, e) ↦ ground (arith, find-delete tag u s.chans)
]

absent-view :
    (tag : Bytes) (s : Consumers)
    → find tag s.chans ≡ none
    → (u : Bytes) → view s u ≡ put tag none (view s) u
unfolding view put log_at
absent-view tag s n u = elim (Bool-cases (bytes_eq tag u)) [
  | inl b ↦ let same : tag ≡ u = bytes_eq→eq tag u b in rw (b, ← same, n) refl
  | inr b ↦ rw b refl
]

cancel-view :
    (tag : Bytes) (s : Consumers)
    → IsOpen s
    → (t : Consumers) × (cancel tag s ≡ returned (t, is_some (view s tag)))
      × IsOpen t
      × (view t ≡ put tag none (view s))
unfolding cancel close_feed view log_at is_some
cancel-view tag s h = elim (Option-cases (find tag s.chans)) [
  | inl e ↦ (s, rw (e, cancel) refl, h, fun_ext (absent-view tag s e))
  | inr (i, e) ↦ (
    closed_at tag i s,
    rw (e, cancel, h.live tag i e) refl,
    closed_at-IsOpen tag i s h e,
    fun_ext (λ u. closed_at-view tag u i s),
  )
]

sent_on-view :
    (tag u : Bytes) (d : Delivery) (i : ℕ) (s : Consumers)
    → IsOpen s
    → find tag s.chans ≡ some i
    → view (sent_on i d s) u ≡ put tag (append_to d (view s tag)) (view s) u
unfolding view put log_at append_to set_feed
sent_on-view tag u d i s h e = elim (Option-cases (find u s.chans)) [
  | inl n ↦ ground (arith, bytes_eq→eq tag u)
  | inr (j, f) ↦ ground (arith, h.single tag u i, bytes_eq→eq tag u, bytes_eq_refl tag)
]

send-view :
    (tag : Bytes) (d : Delivery) (s : Consumers)
    → IsOpen s
    → (t : Consumers) × (send tag d s ≡ returned (t, is_some (view s tag)))
      × IsOpen t
      × (view t ≡ put tag (append_to d (view s tag)) (view s))
unfolding send view log_at is_some append_to
send-view tag d s h = elim (Option-cases (find tag s.chans)) [
  | inl e ↦ (s, rw (e, send) refl, h, rw e (fun_ext (absent-view tag s e)))
  | inr (i, e) ↦
      let (r, o) = send-IsOpen tag d s i h e in
      (sent_on i d s, rw e r, o, fun_ext (λ u. sent_on-view tag u d i s h e))
]

-- Any sequence of calls from consumers whose channels are open returns, with such consumers; what the
-- calls have reported, and what a client sees at the end, is what the same calls do to the map of
-- the deliveries of each tag.
pub run-replay :
    (cs : List Call) (s : Consumers)
    → IsOpen s
    → (t : Consumers) × (run cs s ≡ returned (t, reports cs (view s)))
      × IsOpen t
      × (view t ≡ replay cs (view s))
unfolding run replay reports and_report with_added with_reported
run-replay [] s h = (s, refl, h, refl)
run-replay (add_call tag ∷ cs) s h =
    let (m, a, o, v) = add-view tag s h in
    let (t, r, p, w) = run-replay cs m o in (t, rw (a, ← v) r, p, rw (← v) w)
run-replay (cancel_call tag ∷ cs) s h =
    let (m, a, o, v) = cancel-view tag s h in
    let (t, r, p, w) = run-replay cs m o in (t, rw (a, ← v, r) refl, p, rw (← v) w)
run-replay (send_call tag d ∷ cs) s h =
    let (m, a, o, v) = send-view tag d s h in
    let (t, r, p, w) = run-replay cs m o in (t, rw (a, ← v, r) refl, p, rw (← v) w)
