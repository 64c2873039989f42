-- ===== src/Amqp/Channel/Delivered.antt =====
-- A delivery that comes in pieces (channel.go, consumers.go).
use gitbook_golang.Prelude.{
  ℕ, ◌^◌, ◌≤◌, ◌<◌, ◌≡◌, refl, ◌∙◌, some, List, [], ◌∷◌, ◌++◌, if◌then◌else◌, bytes_eq, length,
}
use gitbook_golang.Amqp.Channel.{
  recv_method, Channel, went, with_found, deliver_to, deliver, dispatch,
}
use gitbook_golang.Amqp.Channel.Reassembly.{joined, body_frames, collecting, recv_all-complete}
use gitbook_golang.Amqp.Channel.Recv.{transition, complete, recv_all}
use gitbook_golang.Amqp.Channel.Safe.{no_content, IsReady, ensure-IsOpen}
use gitbook_golang.Amqp.Consumers.{Consumers}
use gitbook_golang.Amqp.Consumers.Received.{received, received-send}
use gitbook_golang.Amqp.Consumers.Safe.{IsOpen, sent_on, send-IsOpen}
use gitbook_golang.Amqp.Delivery.{deliver_delivery}
use gitbook_golang.Amqp.Frame.{MethodFrame, HeaderFrame, method_frame, header_frame}
use gitbook_golang.Amqp.Spec.Content.{BasicDeliver}
use gitbook_golang.Amqp.Spec.Message.{basic_deliver, set_content, has_content}
use gitbook_golang.Amqp.Wire.{Bytes}

deliver-received :
    (ch : Channel) (m : BasicDeliver)
    → IsOpen ch.consumers
    → (s : Consumers) × (deliver ch m ≡ went (record ch { consumers = s }))
      × IsOpen s
      × ((tag : Bytes)
          → received tag s ≡ (
              if bytes_eq m.consumer_tag tag
              then received tag ch.consumers ++ deliver_delivery ch.id m ∷ []
              else received tag ch.consumers))
unfolding deliver deliver_to with_found
deliver-received ch m o =
    let (t, i, a, p, f, same) = ensure-IsOpen m.consumer_tag ch.consumers o in
    let d = deliver_delivery ch.id m in
    let (b, q) = send-IsOpen m.consumer_tag d t i p f in
    (
      sent_on i d t,
      rw (a, b) refl,
      q,
      λ tag. rw (← same tag) (received-send m.consumer_tag tag d t i p f),
    )

-- On a channel whose invariant holds, whatever it was doing, a `basic.deliver`, its header with a
-- size below 2^63, and body frames that reach that size with the last of them and not before: no
-- frame panics, the consumer of the delivery's tag gets one more delivery, with the properties of
-- the header and the joined pieces as its body, no other consumer gets any, and the channel is
-- ready for the next method.
pub deliver_lem :
    (ch : Channel) (f : MethodFrame) (m : BasicDeliver) (h : HeaderFrame) (id : ℕ) (ps : List Bytes)
    (last : Bytes)
    → IsReady ch
    → f.method ≡ some (basic_deliver m)
    → h.size < 2 ^ 63
    → length (joined ps) < h.size
    → h.size ≤ length (joined ps ++ last)
    → (c : Channel) × (recv_all ch (method_frame f ∷ header_frame h ∷ body_frames id ps last)
        ≡ went c)
      × IsReady c
      × (c.recv ≡ recv_method)
      × ((tag : Bytes)
          → received tag c.consumers ≡ (
              if bytes_eq m.consumer_tag tag
              then received tag ch.consumers
                ++ deliver_delivery ch.id
                    (record m { properties = h.properties; body = joined ps ++ last })
                  ∷ []
              else received tag ch.consumers))
unfolding complete dispatch set_content transition has_content
deliver_lem ch f m h id ps last r e lt few full =
    let whole : BasicDeliver = record m { properties = h.properties; body = joined ps ++ last } in
    let mid : Channel = record (collecting ch (basic_deliver m) h (joined ps ++ last)) {
      message = some (basic_deliver whole);
    } in
    let (s, a, o, gets) = deliver-received mid whole r.live in
    (
      record mid { consumers = s; recv = recv_method },
      recv_all-complete ch f (basic_deliver m) h id ps last e refl lt few full ∙ rw a refl,
      record { live = o; quiet = r.quiet; holds = no_content },
      refl,
      gets,
    )
