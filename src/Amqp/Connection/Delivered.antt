-- ===== src/Amqp/Connection/Delivered.antt =====
-- From the bytes of a delivery to its consumer (connection.go, channel.go).
use gitbook_golang.Prelude.{
  ℕ, ◌^◌, ◌≤◌, ◌<◌, ◌≡◌, refl, ap, ◌∙◌, inl, inr, false, Option, none, some, List, [], ◌∷◌, ◌++◌,
  arith, ◌==◌, if◌then◌else◌, Option-cases, bytes_eq, length,
}
use gitbook_golang.Amqp.Channel.{Channel, new_channel, Step, went, crashed, stuck}
use gitbook_golang.Amqp.Channel.Delivered.{deliver_lem}
use gitbook_golang.Amqp.Channel.Reassembly.{joined, body_frames}
use gitbook_golang.Amqp.Channel.Recv.{recv, and_recv_all, recv_all}
use gitbook_golang.Amqp.Channel.Safe.{IsReady, new_channel-IsReady}
use gitbook_golang.Amqp.Connection.{
  Connection, set_channel, store, dispatch_closed, dispatch_n_to, dispatch_n, demux, handled, parse,
  and_demux_all, demux_all,
}
use gitbook_golang.Amqp.Connection.Ready.{AllReady}
use gitbook_golang.Amqp.Connection.Written.{write_all, AllWritable, parse-write_all}
use gitbook_golang.Amqp.Consumers.Received.{received}
use gitbook_golang.Amqp.Delivery.{deliver_delivery}
use gitbook_golang.Amqp.Frame.{MethodFrame, HeaderFrame, Frame, method_frame, header_frame, channel}
use gitbook_golang.Amqp.Spec.Content.{BasicDeliver}
use gitbook_golang.Amqp.Spec.Message.{basic_deliver}
use gitbook_golang.Amqp.Wire.{Bytes, done}

-- The channel that handles the next frame of the number `k`.
abbrev pub or_new : ℕ → Option Channel → Channel
or_new k (some ch) = ch
or_new k none = new_channel k

abbrev pub channel_at : ℕ → Connection → Channel
channel_at k c = or_new k (c.channels k)

data AllOn (k : ℕ) : List Frame → Type 0 where
  none_on : AllOn k []
  one_on : {f : Frame} {fs : List Frame} → channel f ≡ k → AllOn k fs → AllOn k (f ∷ fs)

set_channel-same :
    (k : ℕ) (ch : Channel) (c : Connection) → (set_channel k ch c).channels k ≡ some ch
unfolding set_channel
set_channel-same k ch c = ground arith

dispatch_closed-at :
    (k : ℕ) (c : Connection) (f : Frame) (ch : Channel)
    → channel f ≡ k
    → recv (new_channel k) f ≡ went ch
    → dispatch_closed c f ≡ went (set_channel k ch (set_channel k (new_channel k) c))
unfolding dispatch_closed
dispatch_closed-at k c f ch e r = rw (e, r) (unfold store in refl)

-- The frame goes to the channel of its number.
dispatch_n-at :
    (k : ℕ) (c : Connection) (f : Frame) (ch : Channel)
    → channel f ≡ k
    → recv (channel_at k c) f ≡ went ch
    → (d : Connection) × (dispatch_n c f ≡ went d) × (d.channels k ≡ some ch)
unfolding dispatch_n
dispatch_n-at k c f ch e r = elim (Option-cases (c.channels k)) [
  | inl n ↦
      let r' : recv (new_channel k) f ≡ went ch = rw n at r in
      (
        set_channel k ch (set_channel k (new_channel k) c),
        rw (e, n) (unfold dispatch_n_to in dispatch_closed-at k c f ch e r'),
        set_channel-same k ch (set_channel k (new_channel k) c),
      )
  | inr (old, n) ↦
      let r' : recv old f ≡ went ch = rw n at r in
      (
        set_channel k ch c,
        rw (e, n) (unfold dispatch_n_to in rw (e, r') (unfold store in refl)),
        set_channel-same k ch c,
      )
]

demux-at :
    (k : ℕ) (c : Connection) (f : Frame) (ch : Channel)
    → 0 < k
    → channel f ≡ k
    → recv (channel_at k c) f ≡ went ch
    → (d : Connection) × (demux c f ≡ went d) × (d.channels k ≡ some ch)
unfolding demux
demux-at k c f ch pos e r =
    let other : (channel f == 0) ≡ false = ground arith in rw other (dispatch_n-at k c f ch e r)

recv_all-cons :
    (s : Step Channel) (fs : List Frame) (ch : Channel)
    → and_recv_all s (λ c. recv_all c fs) ≡ went ch
    → (mid : Channel) × (s ≡ went mid) × (recv_all mid fs ≡ went ch)
unfolding and_recv_all
recv_all-cons (went mid) fs ch e = (mid, refl, e)
recv_all-cons crashed fs ch e = cc
recv_all-cons stuck fs ch e = cc

demux_all-at :
    (k : ℕ) (c : Connection) (f : Frame) (fs : List Frame) (ch : Channel)
    → 0 < k
    → AllOn k (f ∷ fs)
    → recv_all (channel_at k c) (f ∷ fs) ≡ went ch
    → (d : Connection) × (demux_all c (f ∷ fs) ≡ went d) × (d.channels k ≡ some ch)
unfolding demux_all and_demux_all recv_all
demux_all-at k c f [] ch pos (one_on e _) r =
    let (mid, s, q) = recv_all-cons _ [] ch r in
    let (d, p, at) = demux-at k c f mid pos e s in
    let same : mid ≡ ch = cc in (d, rw p refl, at ∙ ap some same)
demux_all-at k c f (g ∷ gs) ch pos (one_on e all) r =
    let (mid, s, q) = recv_all-cons _ (g ∷ gs) ch r in
    let (d, p, at) = demux-at k c f mid pos e s in
    let (last, p', at') = demux_all-at k d g gs ch pos all (rw at q) in (last, rw p p', at')

-- The frames of a delivery on channel `k`.
abbrev pub delivery_frames : ℕ → MethodFrame → HeaderFrame → List Bytes → Bytes → List Frame
delivery_frames k f h ps last = method_frame f ∷ header_frame h ∷ body_frames k ps last

body_frames-AllOn : (k : ℕ) (ps : List Bytes) (last : Bytes) → AllOn k (body_frames k ps last)
unfolding channel
body_frames-AllOn k [] last = one_on refl none_on
body_frames-AllOn k (p ∷ ps) last = one_on refl (body_frames-AllOn k ps last)

channel_at-IsReady : (k : ℕ) (c : Connection) → AllReady c → IsReady (channel_at k c)
channel_at-IsReady k c h = elim (Option-cases (c.channels k)) [
  | inl n ↦ rw n (new_channel-IsReady k)
  | inr (ch, n) ↦ rw n (h.ready k ch n)
]

-- On a connection all of whose channels are ready, the frames of a `basic.deliver` on a channel
-- that is not 0, if they fit the wire format (the method, its header with a size below 2^63, and
-- body frames that reach that size with the last of them and not before), are written without an
-- error, and `Connection.Parse` on the bytes gives the consumer of the delivery's tag on that
-- channel one more delivery, with the properties of the header and the joined pieces as its body,
-- and no other consumer of the channel any.
pub parse-delivers :
    (c : Connection) (k : ℕ) (f : MethodFrame) (m : BasicDeliver) (h : HeaderFrame)
    (ps : List Bytes) (last : Bytes)
    → AllReady c
    → 0 < k
    → f.channel_id ≡ k
    → h.channel_id ≡ k
    → f.method ≡ some (basic_deliver m)
    → AllWritable (delivery_frames k f h ps last)
    → h.size < 2 ^ 63
    → length (joined ps) < h.size
    → h.size ≤ length (joined ps ++ last)
    → (bytes : Bytes) × (d : Connection) × (ch : Channel) × (write_all
          (delivery_frames k f h ps last)
        ≡ done bytes)
      × (parse c bytes ≡ some (went d))
      × (d.channels k ≡ some ch)
      × ((tag : Bytes)
          → received tag ch.consumers ≡ (
              if bytes_eq m.consumer_tag tag
              then received tag (channel_at k c).consumers
                ++ deliver_delivery
                    (channel_at k c).id
                    (record m { properties = h.properties; body = joined ps ++ last })
                  ∷ []
              else received tag (channel_at k c).consumers))
unfolding channel
parse-delivers c k f m h ps last r pos ef eh e w lt few full =
    let (bytes, written, parsed) = parse-write_all (delivery_frames k f h ps last) w in
    let (ch, went_on, _, _, got) =
      deliver_lem (channel_at k c) f m h k ps last (channel_at-IsReady k c r) e lt few full in
    let on = one_on ef (one_on eh (body_frames-AllOn k ps last)) in
    let (d, handled, at) = demux_all-at k c (method_frame f) _ ch pos on went_on in
    (bytes, d, ch, written, rw (parsed c, handled) refl, at, got)
