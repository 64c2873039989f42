-- ===== src/Amqp/Connection/Total.antt =====
-- `Parse` on any bytes at all (connection.go).
use mathlib.Core.Path.{subst}
use gitbook_golang.Prelude.{
  ℕ, zero, suc, ◌+◌, ◌<◌, ◌≡◌, refl, inl, inr, Option, some, [], ◌∷◌, arith, ◌==◌, Bool-cases,
  Option-cases, length,
}
use gitbook_golang.Amqp.Channel.{Channel, new_channel, Step}
use gitbook_golang.Amqp.Channel.Safe.{Calm}
use gitbook_golang.Amqp.Channel.Total.{Runs, returns, panics, recv-Runs, new_channel-Calm}
use gitbook_golang.Amqp.Connection.{
  Endpoint, Connection, new_connection, set_channel, store, dispatch_closed, dispatch_n_to,
  dispatch_n, demux, Turn, ended, goes_on, handled, turn, and_turn, parse_loop, parse,
}
use gitbook_golang.Amqp.Connection.Loop.{read_frame-nil}
use gitbook_golang.Amqp.Connection.Ready.{dispatch0-channels}
use gitbook_golang.Amqp.Frame.{Frame, channel}
use gitbook_golang.Amqp.Frame.Ends.{read_frame-Ends}
use gitbook_golang.Amqp.Frame.Read.{read_frame}
use gitbook_golang.Amqp.Wire.{Bytes, Error, eof, Outcome, err}
use gitbook_golang.Amqp.Wire.Shrinks.{Ends, ok_ends, err_ends, panic_ends}

pub record AllCalm (c : Connection) : Type 0 where
  pub calm : (id : ℕ) (ch : Channel) → c.channels id ≡ some ch → Calm ch

pub new_connection-AllCalm : (sep cep : Endpoint) → AllCalm (new_connection sep cep)
unfolding new_connection
new_connection-AllCalm sep cep = record { calm = λ id ch e. cc }

set_channel-AllCalm :
    (id : ℕ) (ch : Channel) (c : Connection) → AllCalm c → Calm ch → AllCalm (set_channel id ch c)
unfolding set_channel
set_channel-AllCalm id ch c h r = record {
  calm = λ k d e. elim (Bool-cases (k == id)) [
    | inl p ↦ let same : ch ≡ d = cc (rw p at e) in subst Calm same r
    | inr p ↦ h.calm k d (rw p at e)
  ];
}

store-Runs :
    (c : Connection) (id : ℕ) {s : Step Channel}
    → AllCalm c
    → Runs Calm s
    → Runs AllCalm (store c id s)
unfolding store
store-Runs c id h (returns {a = ch} p) = returns (set_channel-AllCalm id ch c h p)
store-Runs c id h panics = panics

dispatch_n-Runs : (c : Connection) (f : Frame) → AllCalm c → Runs AllCalm (dispatch_n c f)
unfolding dispatch_n dispatch_n_to dispatch_closed
dispatch_n-Runs c f h =
    let k = channel f in
    let new = new_channel-Calm k in
    elim (Option-cases (c.channels k)) [
      | inl e ↦ rw e (
          store-Runs (set_channel k (new_channel k) c) k
            (set_channel-AllCalm k (new_channel k) c h new) (recv-Runs (new_channel k) f new))
      | inr (ch, e) ↦ rw e (store-Runs c k h (recv-Runs ch f (h.calm k ch e)))
    ]

demux-Runs : (c : Connection) (f : Frame) → AllCalm c → Runs AllCalm (demux c f)
unfolding demux
demux-Runs c f h = elim (Bool-cases (channel f == 0)) [
  | inl e ↦
      rw e (returns (record { calm = λ id ch p. h.calm id ch (rw (dispatch0-channels c f) at p) }))
  | inr e ↦ rw e (dispatch_n-Runs c f h)
]

-- A turn ends with a result that is no endless loop, or goes on with less bytes.
data Advances (n : ℕ) : Turn → Type 0 where
  halts : {r : Step Connection} → Runs AllCalm r → Advances n (ended (some r))
  advances : {d : Connection} {s : Bytes} → AllCalm d → length s < n → Advances n (goes_on d s)

handled-Advances :
    (n : ℕ) (s : Bytes) {st : Step Connection}
    → Runs AllCalm st
    → length s < n
    → Advances n (handled s st)
unfolding handled
handled-Advances n s (returns p) lt = advances p lt
handled-Advances n s panics lt = halts panics

err-Advances :
    (n : ℕ) (c : Connection) (e : Error) (s : Bytes)
    → AllCalm c
    → length s < n
    → Advances n (turn c (err e s))
unfolding turn
err-Advances n c eof s h lt = halts (returns h)
err-Advances n c e s h lt = advances h lt

Ends-Advances :
    (m n : ℕ) (c : Connection) {r : Outcome Frame}
    → AllCalm c
    → Ends m r
    → m < n
    → Advances n (turn c r)
unfolding turn
Ends-Advances m n c h (ok_ends {a} {s} le) lt =
    handled-Advances n s (demux-Runs c a h) (omega arith)
Ends-Advances m n c h (err_ends {e} {s} le) lt = err-Advances n c e s h (omega arith)
Ends-Advances m n c h panic_ends lt = halts panics

turn-Advances :
    (c : Connection) (s : Bytes) → AllCalm c → Advances (length s) (turn c (read_frame s))
unfolding turn
turn-Advances c [] h = rw read_frame-nil (halts (returns h))
turn-Advances c (x ∷ s) h = Ends-Advances _ _ c h (read_frame-Ends (x ∷ s)) (omega arith)

abbrev pub Finishes : Option (Step Connection) → Type 0
Finishes o = (r : Step Connection) × (o ≡ some r) × Runs AllCalm r

and_turn-Finishes :
    (m : ℕ) {t : Turn} (loop : Connection → Bytes → Option (Step Connection))
    → Advances m t
    → ((d : Connection) (s : Bytes) → AllCalm d → length s < m → Finishes (loop d s))
    → Finishes (and_turn t loop)
unfolding and_turn
and_turn-Finishes m loop (halts {r} p) k = (r, refl, p)
and_turn-Finishes m loop (advances {d} {s} h lt) k = k d s h lt

parse_loop-Finishes :
    (n : ℕ) (c : Connection) (s : Bytes) → AllCalm c → length s < n → Finishes (parse_loop n c s)
unfolding parse_loop
parse_loop-Finishes zero c s h lt = absurd (omega arith)
parse_loop-Finishes (suc n) c s h lt =
    and_turn-Finishes (length s) _ (turn-Advances c s h)
      (λ d u k le. parse_loop-Finishes n d u k (omega arith))

-- On a connection whose channels have open consumers and are not confirming, as every connection that
-- the program makes: whatever the bytes are, `Parse` returns or panics, and when it returns, the
-- channels of the connection are such again.
pub parse-Finishes :
    (c : Connection) (s : Bytes)
    → AllCalm c
    → (r : Step Connection) × (parse c s ≡ some r) × Runs AllCalm r
unfolding parse
parse-Finishes c s h = parse_loop-Finishes (length s + 1) c s h (omega arith)
