-- ===== src/Amqp/Channel/Safe.antt =====
-- Channels on the frames of a well-behaved peer (channel.go).
use gitbook_golang.Prelude.{
  ℕ, ◌^◌, ◌<◌, ◌≡◌, refl, inl, inr, Bool, false, Option, none, some, [], ◌++◌, arith, leb, ◌==◌,
  Bool-cases, Option-cases, length,
}
use gitbook_golang.Amqp.Channel.{
  Expect, recv_method, recv_header, recv_content, Channel, new_channel, Step, went, with_found,
  settle, ensure_consumer, deliver_to, deliver, to_rpc, dispatch,
}
use gitbook_golang.Amqp.Channel.Recv.{
  transition, accept_method, on_method, complete, on_header, collect, on_content, by_state, recv,
}
use gitbook_golang.Amqp.Consumers.{Consumers, find, returned, open_feed, add, cancel}
use gitbook_golang.Amqp.Consumers.Received.{received, received-open_feed}
use gitbook_golang.Amqp.Consumers.Safe.{
  IsOpen, make_consumers-IsOpen, open_feed-IsOpen, found-open_feed, cancel-IsOpen, sent_on,
  send-IsOpen,
}
use gitbook_golang.Amqp.Delivery.{Delivery, deliver_delivery}
use gitbook_golang.Amqp.Frame.{
  MethodFrame, HeaderFrame, BodyFrame, Frame, method_frame, header_frame, body_frame,
  heartbeat_frame,
}
use gitbook_golang.Amqp.Spec.Content.{BasicDeliver}
use gitbook_golang.Amqp.Spec.Message.{
  Message, channel_flow, channel_close, basic_cancel, basic_return, basic_deliver, basic_ack,
  basic_nack, has_content,
}
use gitbook_golang.Amqp.Wire.{Bytes}

abbrev pub HasMessage : Channel → Type 0
HasMessage ch = (msg : Message) × (ch.message ≡ some msg)

abbrev pub HasHeader : Channel → Type 0
HasHeader ch = (h : HeaderFrame) × (ch.header ≡ some h) × (h.size < 2 ^ 63)

-- What a state of the machine needs.
pub data Holds (ch : Channel) : Expect → Type 0 where
  no_content : Holds ch recv_method
  has_message : HasMessage ch → Holds ch recv_header
  has_both : HasMessage ch → HasHeader ch → Holds ch recv_content

pub record IsReady (ch : Channel) : Type 0 where
  pub live : IsOpen ch.consumers
  pub quiet : ch.confirming ≡ false
  pub holds : Holds ch ch.recv

-- No heartbeat, and no size that is not a positive int.
pub data IsTame : Frame → Type 0 where
  tame_method : {f : MethodFrame} → IsTame (method_frame f)
  tame_header : {f : HeaderFrame} → f.size < 2 ^ 63 → IsTame (header_frame f)
  tame_body : {f : BodyFrame} → IsTame (body_frame f)

-- The parts of the invariant that hold in every state of the machine.
abbrev pub Calm : Channel → Type 0
Calm ch = IsOpen ch.consumers × (ch.confirming ≡ false)

abbrev pub Goes : (Channel → Type 0) → Step Channel → Type 0
Goes P s = (c : Channel) × (s ≡ went c) × P c

Goes-transition :
    (e : Expect) {P : Channel → Type 0} {s : Step Channel}
    → ((c : Channel) → P c → IsReady (record c { recv = e }))
    → Goes P s
    → Goes IsReady (transition e s)
unfolding transition
Goes-transition e f (c, q, p) = (record c { recv = e }, rw q refl, f c p)

cancel-Calm :
    (ch : Channel) (tag : Bytes) → Calm ch → Goes Calm (with_found ch (cancel tag ch.consumers))
unfolding with_found
cancel-Calm ch tag (o, q) =
    let (t, found, e, p, _) = cancel-IsOpen tag ch.consumers o in
    (record ch { consumers = t }, rw e refl, (p, q))

send-Calm :
    (ch : Channel) (tag : Bytes) (d : Delivery) (s : Consumers) (i : ℕ)
    → IsOpen s
    → find tag s.chans ≡ some i
    → ch.confirming ≡ false
    → Goes Calm (deliver_to ch tag d (returned s))
unfolding deliver_to with_found
send-Calm ch tag d s i o e q =
    let (f, p) = send-IsOpen tag d s i o e in
    (record ch { consumers = sent_on i d s }, rw f refl, (p, q))

add-open_feed :
    (tag : Bytes) (s : Consumers) → find tag s.chans ≡ none → add tag s ≡ returned (open_feed tag s)
unfolding add
add-open_feed tag s e = rw (e, add) refl

-- After `ensure_consumer` the tag has an open channel, and no tag has got a delivery.
pub ensure-IsOpen :
    (tag : Bytes) (s : Consumers)
    → IsOpen s
    → (t : Consumers) × (i : ℕ) × (ensure_consumer tag s ≡ returned t)
      × IsOpen t
      × (find tag t.chans ≡ some i)
      × ((u : Bytes) → received u t ≡ received u s)
unfolding ensure_consumer
ensure-IsOpen tag s o = elim (Option-cases (find tag s.chans)) [
  | inl e ↦ (
    open_feed tag s,
    s.made,
    rw (e, ensure_consumer) (add-open_feed tag s e),
    open_feed-IsOpen tag s o,
    found-open_feed tag s,
    λ u. received-open_feed tag u s o e,
  )
  | inr (i, e) ↦ (s, i, rw (e, ensure_consumer) refl, o, e, λ u. refl)
]

deliver-Calm : (ch : Channel) (m : BasicDeliver) → Calm ch → Goes Calm (deliver ch m)
unfolding deliver
deliver-Calm ch m (o, q) =
    let (t, i, a, p, f, _) = ensure-IsOpen m.consumer_tag ch.consumers o in
    rw a (send-Calm ch m.consumer_tag (deliver_delivery ch.id m) t i p f q)

settle-Calm :
    (ch : Channel) (tag : ℕ) (many ack : Bool) → Calm ch → Goes Calm (settle ch tag many ack)
unfolding settle
settle-Calm ch tag many ack (o, q) = (ch, rw q refl, (o, q))

pub dispatch-Calm : (ch : Channel) (msg : Message) → Calm ch → Goes Calm (dispatch ch msg)
unfolding dispatch to_rpc
dispatch-Calm ch (channel_close m) h = (ch, refl, h)
dispatch-Calm ch (channel_flow m) h = (_, refl, h)
dispatch-Calm ch (basic_cancel m) h = cancel-Calm _ m.consumer_tag h
dispatch-Calm ch (basic_return m) h = (_, refl, h)
dispatch-Calm ch (basic_ack m) h = settle-Calm ch _ _ _ h
dispatch-Calm ch (basic_nack m) h = settle-Calm ch _ _ _ h
dispatch-Calm ch (basic_deliver m) h = deliver-Calm ch m h
dispatch-Calm ch msg h = (to_rpc ch (some msg), refl, h)

settled : (c : Channel) → Calm c → IsReady (record c { recv = recv_method })
settled c (o, q) = record { live = o; quiet = q; holds = no_content }

accept_method-IsReady :
    (ch : Channel) (m : Option Message) → Calm ch → Goes IsReady (accept_method ch m)
unfolding accept_method transition to_rpc
accept_method-IsReady ch none h = (_, refl, settled (to_rpc ch none) h)
accept_method-IsReady ch (some msg) (o, q) = elim (Bool-cases (has_content msg)) [
  | inl e ↦ (
    record ch { body = []; message = some msg; recv = recv_header },
    rw e refl,
    record { live = o; quiet = q; holds = has_message (msg, refl) },
  )
  | inr e ↦ rw e (Goes-transition recv_method settled (dispatch-Calm ch msg (o, q)))
]

on_method-IsReady : (ch : Channel) (f : Frame) → Calm ch → IsTame f → Goes IsReady (on_method ch f)
unfolding on_method transition
on_method-IsReady ch (method_frame f) h (tame_method) = accept_method-IsReady ch f.method h
on_method-IsReady ch (header_frame f) h (tame_header _) = (_, refl, settled ch h)
on_method-IsReady ch (body_frame f) h (tame_body) = (_, refl, settled ch h)
on_method-IsReady ch (heartbeat_frame f) h t = elim t [ ]

complete-IsReady :
    (ch : Channel) (msg : Message) (h : HeaderFrame)
    → Calm ch
    → Goes IsReady (complete ch (some msg) (some h))
unfolding complete
complete-IsReady ch msg h c = Goes-transition recv_method settled (dispatch-Calm _ _ c)

on_header-IsReady :
    (ch : Channel) (f : Frame) → Calm ch → HasMessage ch → IsTame f → Goes IsReady (on_header ch f)
unfolding on_header transition
on_header-IsReady ch (method_frame f) h m t = on_method-IsReady ch (method_frame f) h t
on_header-IsReady ch (header_frame f) h (msg, e) (tame_header lt) =
    elim (Bool-cases (f.size == 0)) [
      | inl z ↦ rw (z, e) (complete-IsReady _ msg f h)
      | inr z ↦ (
        record ch { header = some f; recv = recv_content },
        rw z refl,
        record { live = h.0; quiet = h.1; holds = has_both (msg, e) (f, refl, lt) },
      )
    ]
on_header-IsReady ch (body_frame f) h m t = (_, refl, settled ch h)
on_header-IsReady ch (heartbeat_frame f) h m t = elim t [ ]

on_content-IsReady :
    (ch : Channel) (f : Frame)
    → Calm ch
    → HasMessage ch
    → HasHeader ch
    → IsTame f
    → Goes IsReady (on_content ch f)
unfolding on_content collect transition
on_content-IsReady ch (method_frame f) h m g t = on_method-IsReady ch (method_frame f) h t
on_content-IsReady ch (header_frame f) h m g t = (_, refl, settled ch h)
on_content-IsReady ch (body_frame f) h (msg, e) (head, g, lt) t =
    let small : leb (2 ^ 63) head.size ≡ false = ground arith in
    elim (Bool-cases (leb head.size (length (ch.body ++ f.body)))) [
      | inl z ↦ rw (g, small, z, e) (complete-IsReady _ msg head h)
      | inr z ↦ (
        record ch { body = ch.body ++ f.body; recv = recv_content },
        rw (g, small, z) refl,
        record { live = h.0; quiet = h.1; holds = has_both (msg, e) (head, g, lt) },
      )
    ]
on_content-IsReady ch (heartbeat_frame f) h m g t = elim t [ ]

by_state-IsReady :
    (e : Expect) (ch : Channel) (f : Frame)
    → Calm ch
    → Holds ch e
    → IsTame f
    → Goes IsReady (by_state e ch f)
unfolding by_state
by_state-IsReady recv_method ch f h no_content t = on_method-IsReady ch f h t
by_state-IsReady recv_header ch f h (has_message m) t = on_header-IsReady ch f h m t
by_state-IsReady recv_content ch f h (has_both m g) t = on_content-IsReady ch f h m g t

pub new_channel-IsReady : (id : ℕ) → IsReady (new_channel id)
unfolding new_channel
new_channel-IsReady id = record { live = make_consumers-IsOpen; quiet = refl; holds = no_content }

-- A channel whose invariant holds handles every frame that is no heartbeat, and no header of a size
-- past 2^63, without a panic and without a loop that does not end, and the invariant holds after it.
pub recv-IsReady :
    (ch : Channel) (f : Frame)
    → IsReady ch
    → IsTame f
    → (c : Channel) × (recv ch f ≡ went c) × IsReady c
unfolding recv
recv-IsReady ch f r t = by_state-IsReady ch.recv ch f (r.live, r.quiet) r.holds t
