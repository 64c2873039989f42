-- ===== src/Amqp/Channel/Total.antt =====
-- Channels on any frames at all (channel.go).
use gitbook_golang.Prelude.{
  ℕ, ◌^◌, refl, inl, inr, ◌&&◌, Option, none, some, ◌++◌, leb, ◌==◌, Bool-cases, length,
}
use gitbook_golang.Amqp.Channel.{
  Expect, recv_method, recv_header, recv_content, Channel, new_channel, Step, went, crashed, to_rpc,
}
use gitbook_golang.Amqp.Channel.Recv.{
  transition, accept_method, on_method, complete, on_header, collect, on_content, by_state, recv,
}
use gitbook_golang.Amqp.Channel.Safe.{Calm, Goes, dispatch-Calm}
use gitbook_golang.Amqp.Consumers.Safe.{make_consumers-IsOpen}
use gitbook_golang.Amqp.Frame.{
  HeaderFrame, Frame, method_frame, header_frame, body_frame, heartbeat_frame,
}
use gitbook_golang.Amqp.Spec.Message.{Message, has_content}
use gitbook_golang.Amqp.Wire.{Bytes}

-- A call that returns with `P`, or panics.
pub data Runs {A : Type 0} (P : A → Type 0) : Step A → Type 0 where
  returns : {a : A} → P a → Runs P (went a)
  panics : Runs P crashed

Goes-Runs : {s : Step Channel} → Goes Calm s → Runs Calm s
Goes-Runs (c, e, p) = rw e (returns p)

transition-Runs : (e : Expect) {s : Step Channel} → Runs Calm s → Runs Calm (transition e s)
unfolding transition
transition-Runs e (returns p) = returns p
transition-Runs e panics = panics

accept_method-Runs : (ch : Channel) (m : Option Message) → Calm ch → Runs Calm (accept_method ch m)
unfolding accept_method to_rpc
accept_method-Runs ch none h = transition-Runs recv_method (returns h)
accept_method-Runs ch (some msg) h = elim (Bool-cases (has_content msg)) [
  | inl e ↦ rw e (transition-Runs recv_header (returns h))
  | inr e ↦ rw e (transition-Runs recv_method (Goes-Runs (dispatch-Calm ch msg h)))
]

on_method-Runs : (ch : Channel) (f : Frame) → Calm ch → Runs Calm (on_method ch f)
unfolding on_method
on_method-Runs ch (method_frame f) h = accept_method-Runs ch f.method h
on_method-Runs ch (header_frame f) h = transition-Runs recv_method (returns h)
on_method-Runs ch (body_frame f) h = transition-Runs recv_method (returns h)
on_method-Runs ch (heartbeat_frame f) h = panics

complete-Runs :
    (ch : Channel) (m : Option Message) (head : Option HeaderFrame)
    → Calm ch
    → Runs Calm (complete ch m head)
unfolding complete
complete-Runs ch (some msg) (some head) h =
    transition-Runs recv_method (Goes-Runs (dispatch-Calm _ _ h))
complete-Runs ch (some msg) none h = panics
complete-Runs ch none head h = panics

on_header-Runs : (ch : Channel) (f : Frame) → Calm ch → Runs Calm (on_header ch f)
unfolding on_header
on_header-Runs ch (method_frame f) h = on_method-Runs ch (method_frame f) h
on_header-Runs ch (header_frame f) h = elim (Bool-cases (f.size == 0)) [
  | inl z ↦ rw z (complete-Runs (record ch { header = some f }) ch.message (some f) h)
  | inr z ↦ rw z (transition-Runs recv_content (returns h))
]
on_header-Runs ch (body_frame f) h = transition-Runs recv_method (returns h)
on_header-Runs ch (heartbeat_frame f) h = panics

collect-Runs :
    (ch : Channel) (piece : Bytes) (head : Option HeaderFrame)
    → Calm ch
    → Runs Calm (collect ch piece head)
unfolding collect
collect-Runs ch piece none h = panics
collect-Runs ch piece (some head) h =
    elim (Bool-cases (leb (2 ^ 63) head.size && (length ch.body == 0))) [
      | inl a ↦ rw a panics
      | inr a ↦ elim (Bool-cases (leb head.size (length (ch.body ++ piece)))) [
        | inl b ↦
            rw (a, b) (complete-Runs (record ch { body = ch.body ++ piece }) ch.message ch.header h)
        | inr b ↦ rw (a, b) (transition-Runs recv_content (returns h))
      ]
    ]

on_content-Runs : (ch : Channel) (f : Frame) → Calm ch → Runs Calm (on_content ch f)
unfolding on_content
on_content-Runs ch (method_frame f) h = on_method-Runs ch (method_frame f) h
on_content-Runs ch (header_frame f) h = transition-Runs recv_method (returns h)
on_content-Runs ch (body_frame f) h = collect-Runs ch f.body ch.header h
on_content-Runs ch (heartbeat_frame f) h = panics

by_state-Runs : (e : Expect) (ch : Channel) (f : Frame) → Calm ch → Runs Calm (by_state e ch f)
unfolding by_state
by_state-Runs recv_method ch f h = on_method-Runs ch f h
by_state-Runs recv_header ch f h = on_header-Runs ch f h
by_state-Runs recv_content ch f h = on_content-Runs ch f h

pub recv-Runs : (ch : Channel) (f : Frame) → Calm ch → Runs Calm (recv ch f)
unfolding recv
recv-Runs ch f h = by_state-Runs ch.recv ch f h

pub new_channel-Calm : (id : ℕ) → Calm (new_channel id)
unfolding new_channel
new_channel-Calm id = (make_consumers-IsOpen, refl)
