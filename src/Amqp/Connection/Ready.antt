-- ===== src/Amqp/Connection/Ready.antt =====
-- Connections on the frames of a well-behaved peer (connection.go).
use mathlib.Core.Path.{subst}
use gitbook_golang.Prelude.{
  ℕ, ◌≡◌, refl, ◌⊎◌, inl, inr, Option, none, some, arith, ◌==◌, Bool-cases, Option-cases,
}
use gitbook_golang.Amqp.Channel.{Channel, new_channel, Step, went}
use gitbook_golang.Amqp.Channel.Safe.{IsReady, IsTame, new_channel-IsReady, recv-IsReady}
use gitbook_golang.Amqp.Connection.{
  Endpoint, Connection, new_connection, set_channel, store, to_connection_rpc, dispatch0_method,
  dispatch0, dispatch_closed, dispatch_n_to, dispatch_n, demux,
}
use gitbook_golang.Amqp.Frame.{
  Frame, method_frame, header_frame, body_frame, heartbeat_frame, channel,
}
use gitbook_golang.Amqp.Spec.Message.{
  Message, connection_close, connection_blocked, connection_unblocked,
}

-- Every channel of the map is ready.
pub record AllReady (c : Connection) : Type 0 where
  pub ready : (id : ℕ) (ch : Channel) → c.channels id ≡ some ch → IsReady ch

pub new_connection-AllReady : (sep cep : Endpoint) → AllReady (new_connection sep cep)
unfolding new_connection
new_connection-AllReady sep cep = record { ready = λ id ch e. cc }

set_channel-AllReady :
    (id : ℕ) (ch : Channel) (c : Connection)
    → AllReady c
    → IsReady ch
    → AllReady (set_channel id ch c)
unfolding set_channel
set_channel-AllReady id ch c h r = record {
  ready = λ k d e. elim (Bool-cases (k == id)) [
    | inl p ↦ let same : ch ≡ d = cc (rw p at e) in subst IsReady same r
    | inr p ↦ h.ready k d (rw p at e)
  ];
}

store-AllReady :
    (c : Connection) (id : ℕ) {s : Step Channel}
    → AllReady c
    → (ch : Channel) × (s ≡ went ch) × IsReady ch
    → (d : Connection) × (store c id s ≡ went d) × AllReady d
unfolding store
store-AllReady c id h (ch, e, r) =
    (set_channel id ch c, rw e refl, set_channel-AllReady id ch c h r)

dispatch_closed-AllReady :
    (c : Connection) (f : Frame)
    → AllReady c
    → IsTame f
    → (d : Connection) × (dispatch_closed c f ≡ went d) × AllReady d
unfolding dispatch_closed
dispatch_closed-AllReady c f h t =
    let new = new_channel-IsReady (channel f) in
    store-AllReady (set_channel (channel f) (new_channel (channel f)) c) (channel f)
      (set_channel-AllReady (channel f) _ c h new) (recv-IsReady (new_channel (channel f)) f new t)

dispatch_n-AllReady :
    (c : Connection) (f : Frame)
    → AllReady c
    → IsTame f
    → (d : Connection) × (dispatch_n c f ≡ went d) × AllReady d
unfolding dispatch_n dispatch_n_to
dispatch_n-AllReady c f h t = elim (Option-cases (c.channels (channel f))) [
  | inl e ↦ rw e (dispatch_closed-AllReady c f h t)
  | inr (ch, e) ↦ rw e (store-AllReady c (channel f) h (recv-IsReady ch f (h.ready _ ch e) t))
]

dispatch0_method-channels :
    (c : Connection) (m : Option Message) → (dispatch0_method c m).channels ≡ c.channels
unfolding dispatch0_method to_connection_rpc
dispatch0_method-channels c none = refl
dispatch0_method-channels c (some (connection_close m)) = refl
dispatch0_method-channels c (some (connection_blocked m)) = refl
dispatch0_method-channels c (some (connection_unblocked m)) = refl
dispatch0_method-channels c (some m) = refl

pub dispatch0-channels : (c : Connection) (f : Frame) → (dispatch0 c f).channels ≡ c.channels
unfolding dispatch0
dispatch0-channels c (method_frame f) = dispatch0_method-channels c f.method
dispatch0-channels c (header_frame f) = refl
dispatch0-channels c (body_frame f) = refl
dispatch0-channels c (heartbeat_frame f) = refl

-- A connection all of whose channels are ready handles every frame of channel 0, and every frame of
-- another channel that is no heartbeat and no header of a size past 2^63, without a panic and
-- without a loop that does not end, and all of its channels are ready after it.
pub demux-AllReady :
    (c : Connection) (f : Frame)
    → AllReady c
    → (channel f ≡ 0) ⊎ IsTame f
    → (d : Connection) × (demux c f ≡ went d) × AllReady d
unfolding demux
demux-AllReady c f h t = elim (Bool-cases (channel f == 0)) [
  | inl e ↦ (
    dispatch0 c f,
    rw e refl,
    record { ready = λ id ch p. h.ready id ch (rw (dispatch0-channels c f) at p) },
  )
  | inr e ↦ rw e (dispatch_n-AllReady c f h (elim t [ inl z ↦ absurd (ground arith) | inr k ↦ k ]))
]
