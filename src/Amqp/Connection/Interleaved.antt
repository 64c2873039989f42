-- ===== src/Amqp/Connection/Interleaved.antt =====
-- Frames of several channels on one connection, in any order (connection.go, channel.go).
use gitbook_golang.Prelude.{
  ℕ, ◌<◌, ◌≡◌, refl, sym, ap, ◌∙◌, inl, inr, true, false, none, List, [], ◌∷◌, arith, ◌==◌,
  if◌then◌else◌, Bool-cases, Option-cases,
}
use gitbook_golang.Amqp.Channel.{Channel, new_channel, Step, went, crashed, stuck}
use gitbook_golang.Amqp.Channel.Recv.{recv, and_recv_all, recv_all}
use gitbook_golang.Amqp.Confirms.{one}
use gitbook_golang.Amqp.Connection.{
  Connection, set_channel, store, dispatch0, dispatch_closed, dispatch_n_to, dispatch_n, demux,
  and_demux_all, demux_all,
}
use gitbook_golang.Amqp.Connection.Delivered.{or_new, channel_at}
use gitbook_golang.Amqp.Connection.Ready.{dispatch0-channels}
use gitbook_golang.Amqp.Frame.{Frame, channel}
use mathlib.Core.Path.{subst}

-- The frames of channel `k`, in their order.
unfoldable pub frames_of : ℕ → List Frame → List Frame
frames_of k [] = []
frames_of k (f ∷ fs) = let rest = frames_of k fs in if channel f == k then f ∷ rest else rest

store-went :
    (c d : Connection) (id : ℕ) (s : Step Channel)
    → store c id s ≡ went d
    → (ch : Channel) × (s ≡ went ch) × (set_channel id ch c ≡ d)
unfolding store
store-went c d id (went ch) e = (ch, refl, cc)
store-went c d id crashed e = cc
store-went c d id stuck e = cc

set_channel-at :
    (k id : ℕ) (ch : Channel) (c : Connection)
    → channel_at k (set_channel id ch c) ≡ (if k == id then ch else channel_at k c)
unfolding set_channel
set_channel-at k id ch c = ground arith

set_channel_twice :
    (k id : ℕ) (ch new : Channel) (c : Connection)
    → channel_at k (set_channel id ch (set_channel id new c))
      ≡ (if k == id then ch else channel_at k c)
set_channel_twice k id ch new c =
    set_channel-at k id ch (set_channel id new c)
    ∙ rw (set_channel-at k id new c)
        (elim (Bool-cases (k == id)) [ inl p ↦ rw p refl | inr p ↦ rw p refl ])

-- What a frame does to the channel of the number `k`.
abbrev Moves : ℕ → Connection → Connection → Frame → Type 0
Moves k c d f =
    (ch : Channel) × (recv (channel_at (channel f) c) f ≡ went ch)
    × (channel_at k d ≡ (if k == channel f then ch else channel_at k c))

dispatch_closed-Moves :
    (k : ℕ) (c d : Connection) (f : Frame)
    → dispatch_closed c f ≡ went d
    → c.channels (channel f) ≡ none
    → Moves k c d f
unfolding dispatch_closed
dispatch_closed-Moves k c d f e n =
    let id = channel f in
    let (ch, r, same) = store-went (set_channel id (new_channel id) c) d id _ e in
    (ch, rw n r, ap (λ x. channel_at k x) (sym same) ∙ set_channel_twice k id ch (new_channel id) c)

dispatch_n-Moves : (k : ℕ) (c d : Connection) (f : Frame) → dispatch_n c f ≡ went d → Moves k c d f
unfolding dispatch_n dispatch_n_to
dispatch_n-Moves k c d f e = elim (Option-cases (c.channels (channel f))) [
  | inl n ↦ dispatch_closed-Moves k c d f (rw n at e) n
  | inr (old, n) ↦
      let (ch, r, same) = store-went c d (channel f) _ (rw n at e) in
      (ch, rw n r, ap (λ x. channel_at k x) (sym same) ∙ set_channel-at k (channel f) ch c)
]

-- A frame of another channel, or of channel 0.
demux-other :
    (k : ℕ) (c d : Connection) (f : Frame)
    → demux c f ≡ went d
    → (channel f == k) ≡ false
    → channel_at k d ≡ channel_at k c
unfolding demux
demux-other k c d f e n = elim (Bool-cases (channel f == 0)) [
  | inl z ↦
      let same : went (dispatch0 c f) ≡ went d = rw z at e in
      let whole : dispatch0 c f ≡ d = cc in
      ap (λ x. or_new k (x.channels k)) (sym whole)
      ∙ ap (λ m. or_new k (m k)) (dispatch0-channels c f)
  | inr z ↦
      let (ch, r, at) = dispatch_n-Moves k c d f (rw z at e) in
      let flip : (k == channel f) ≡ false = ground arith in rw flip at at
]

demux-own :
    (c d : Connection) (f : Frame)
    → (channel f == 0) ≡ false
    → demux c f ≡ went d
    → recv (channel_at (channel f) c) f ≡ went (channel_at (channel f) d)
unfolding demux
demux-own c d f n e =
    let (ch, r, at) = dispatch_n-Moves (channel f) c d f (rw n at e) in
    let self : (channel f == channel f) ≡ true = ground arith in
    let same : channel_at (channel f) d ≡ ch = rw self at at in r ∙ ap (λ x. went x) (sym same)

demux-on :
    (k : ℕ) (c d : Connection) (f : Frame)
    → 0 < k
    → demux c f ≡ went d
    → (channel f == k) ≡ true
    → recv (channel_at k c) f ≡ went (channel_at k d)
demux-on k c d f pos e y =
    let same : channel f ≡ k = ground arith in
    subst (λ j. recv (channel_at j c) f ≡ went (channel_at j d)) same
      (demux-own c d f (ground arith) e)

demux_all-cons :
    (s : Step Connection) (fs : List Frame) (d : Connection)
    → and_demux_all s (λ c. demux_all c fs) ≡ went d
    → (mid : Connection) × (s ≡ went mid) × (demux_all mid fs ≡ went d)
unfolding and_demux_all
demux_all-cons (went mid) fs d e = (mid, refl, e)
demux_all-cons crashed fs d e = cc
demux_all-cons stuck fs d e = cc

-- However the frames of the channels are mixed on a connection, as long as none of them makes it
-- panic: a channel that is not 0 is at the end what its own frames, in their order, make of it.
pub demux_all-frames_of :
    (k : ℕ) (c d : Connection) (fs : List Frame)
    → 0 < k
    → demux_all c fs ≡ went d
    → recv_all (channel_at k c) (frames_of k fs) ≡ went (channel_at k d)
unfolding demux_all recv_all and_recv_all frames_of
demux_all-frames_of k c d [] pos e = let same : c ≡ d = cc in ap (λ x. went (channel_at k x)) same
demux_all-frames_of k c d (f ∷ fs) pos e =
    let (mid, one, more) = demux_all-cons (demux c f) fs d e in
    let rest = demux_all-frames_of k mid d fs pos more in
    elim (Bool-cases (channel f == k)) [
      | inl y ↦ rw (y, demux-on k c mid f pos one y) rest
      | inr n ↦ rw n (rw (demux-other k c mid f one n) at rest)
    ]
