-- ===== src/Amqp/Channel/Recv.antt =====
-- `recvMethod`, `recvHeader` and `recvContent` (channel.go).
use gitbook_golang.Prelude.{
  ◌^◌, ◌&&◌, Option, none, some, List, [], ◌∷◌, ◌++◌, leb, ◌==◌, if◌then◌else◌, length,
}
use gitbook_golang.Amqp.Channel.{
  Expect, recv_method, recv_header, recv_content, Channel, Step, went, crashed, stuck, to_rpc,
  dispatch,
}
use gitbook_golang.Amqp.Frame.{
  HeaderFrame, Frame, method_frame, header_frame, body_frame, heartbeat_frame,
}
use gitbook_golang.Amqp.Spec.Message.{Message, set_content, has_content}
use gitbook_golang.Amqp.Wire.{Bytes}

unfoldable pub transition : Expect → Step Channel → Step Channel
transition target (went ch) = went (record ch { recv = target })
transition target crashed = crashed
transition target stuck = stuck

-- A method that carries content is kept; any other is dispatched.
unfoldable pub accept_method : Channel → Option Message → Step Channel
accept_method ch none = transition recv_method (went (to_rpc ch none))
accept_method ch (some msg) =
    if has_content msg
    then transition recv_header (went (record ch { body = []; message = some msg }))
    else transition recv_method (dispatch ch msg)

-- A heartbeat is none of the cases of the three `switch`es.
unfoldable pub on_method : Channel → Frame → Step Channel
on_method ch (method_frame f) = accept_method ch f.method
on_method ch (header_frame f) = transition recv_method (went ch)
on_method ch (body_frame f) = transition recv_method (went ch)
on_method ch (heartbeat_frame f) = crashed

-- `ch.message.setContent(ch.header.Properties, ch.body); ch.dispatch(ch.message)`. A call on a nil
-- message or header panics. The message is a pointer, so the field has the content too.
unfoldable pub complete : Channel → Option Message → Option HeaderFrame → Step Channel
complete ch (some msg) (some h) =
    let whole = set_content msg h.properties ch.body in
    transition recv_method (dispatch (record ch { message = some whole }) whole)
complete ch (some msg) none = crashed
complete ch none h = crashed

unfoldable pub on_header : Channel → Frame → Step Channel
on_header ch (method_frame f) = on_method ch (method_frame f)
on_header ch (header_frame f) =
    let kept = record ch { header = some f } in
    if f.size == 0
    then complete kept kept.message kept.header
    else transition recv_content (went kept)
on_header ch (body_frame f) = transition recv_method (went ch)
on_header ch (heartbeat_frame f) = crashed

-- `make([]byte, 0, ch.header.Size)` panics if the size is no positive int. It is called when nothing
-- has been collected; after that the body has a capacity, unless nothing was allocated.
unfoldable pub collect : Channel → Bytes → Option HeaderFrame → Step Channel
collect ch piece none = crashed
collect ch piece (some h) =
    let kept = record ch { body = ch.body ++ piece } in
    if leb (2 ^ 63) h.size && (length ch.body == 0)
    then crashed
    else if leb h.size (length kept.body)
    then complete kept kept.message kept.header
    else transition recv_content (went kept)

unfoldable pub on_content : Channel → Frame → Step Channel
on_content ch (method_frame f) = on_method ch (method_frame f)
on_content ch (header_frame f) = transition recv_method (went ch)
on_content ch (body_frame f) = collect ch f.body ch.header
on_content ch (heartbeat_frame f) = crashed

unfoldable pub by_state : Expect → Channel → Frame → Step Channel
by_state recv_method ch f = on_method ch f
by_state recv_header ch f = on_header ch f
by_state recv_content ch f = on_content ch f

-- `channel.recv(channel, f)`
unfoldable pub recv : Channel → Frame → Step Channel
recv ch f = by_state ch.recv ch f

unfoldable pub and_recv_all : Step Channel → (Channel → Step Channel) → Step Channel
and_recv_all (went ch) rest = rest ch
and_recv_all crashed rest = crashed
and_recv_all stuck rest = stuck

-- The frames of a channel, one after another.
unfoldable pub recv_all : Channel → List Frame → Step Channel
recv_all ch [] = went ch
recv_all ch (f ∷ fs) = and_recv_all (recv ch f) (λ c. recv_all c fs)
