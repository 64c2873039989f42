-- ===== src/Rabbitmq/Pool.antt =====
-- mq/rabbitmq/rbmq/rbmq.go and client.go. The AMQP client library and the generator of random numbers
-- are parameters.
use gitbook_golang.Prelude.{
  ℕ, zero, suc, ◌≡◌, refl, ap, ◌∙◌, Bool, ◌||◌, Option, none, some, List, [], ◌∷◌, ◌==◌,
  if◌then◌else◌, length,
}
use gitbook_golang.Amqp.Wire.{Bytes}
use gitbook_golang.Rabbitmq.Url.{path_escape, amqp_url}
use gitbook_golang.Text.{codes, format_uint}

abbrev pub default_port : ℕ
default_port = 5601

abbrev pub default_vhost : Bytes
default_vhost = path_escape (codes "/")

pub record HostPort : Type 0 where
  pub host : Bytes
  pub port : ℕ

-- The connections are pointers, `none` for nil.
pub record Rbmq {ℓ} (Conn : Type ℓ) : Type ℓ where
  pub host_ports : List HostPort
  pub conns : List (Option Conn)

-- Go's `copy`: as many elements as the shorter slice has.
unfoldable pub copy {ℓ} : {A : Type ℓ} → List A → List A → List A
copy [] src = []
copy (d ∷ ds) [] = d ∷ ds
copy (d ∷ ds) (s ∷ ss) = s ∷ copy ds ss

-- The slice of a new `rbmq` is nil.
unfoldable pub new_rbmq {ℓ} : {Conn : Type ℓ} → List HostPort → Rbmq Conn
new_rbmq hosts = record { host_ports = copy [] hosts; conns = [] }

unfoldable pub host_port_at : ℕ → List HostPort → Option HostPort
host_port_at i [] = none
host_port_at zero (h ∷ hs) = some h
host_port_at (suc i) (h ∷ hs) = host_port_at i hs

-- What a call gives: a value, an error of the package, an error of the library with the message that
-- is put before it, if any, or a panic of an index.
pub data Answer {ℓ} (A Err : Type ℓ) : Type ℓ where
  got : A → Answer A Err
  missing_host_ports not_implemented : Answer A Err
  failed_to_dial : Err → Answer A Err
  failed : Err → Answer A Err
  out_of_range : Answer A Err

-- What a call of the library gives.
pub data Reply {ℓ} (A Err : Type ℓ) : Type ℓ where
  gives : A → Reply A Err
  fails : Err → Reply A Err

unfoldable pub new_client {ℓ} :
    {Client Conn Err : Type ℓ} → Rbmq Conn → Bytes → Bytes → Bytes → Answer Client Err
new_client r user passwd vhost = not_implemented

module _ {ℓ} {Conn Chan Err : Type ℓ} (intn : ℕ → ℕ) (dial_config : Bytes → Reply Conn Err)
    (conn_channel : Conn → Reply Chan Err) where
  unfoldable pub of_conn : Reply Chan Err → Answer Chan Err
  of_conn (gives ch) = got ch
  of_conn (fails e) = failed e

  unfoldable pub on_dialed : Reply Conn Err → Answer Chan Err
  on_dialed (gives conn) = of_conn (conn_channel conn)
  on_dialed (fails e) = failed_to_dial e

  unfoldable pub dial : Option HostPort → Bytes → Bytes → Bytes → Answer Chan Err
  dial none user passwd vhost = out_of_range
  dial (some h) user passwd vhost =
      on_dialed (dial_config (amqp_url user passwd h.host (format_uint h.port) vhost))

  unfoldable pub channel : Rbmq Conn → Bytes → Bytes → Bytes → Answer Chan Err
  channel r user passwd vhost =
      let n = length r.host_ports in
      if n == 0
      then missing_host_ports
      else dial (host_port_at (intn n) r.host_ports) user passwd vhost

  -- Whatever hosts `NewRbmq` is given: `channel` on the result reports that the hosts are missing, and
  -- nothing is dialed.
  pub channel-new_rbmq :
      (hosts : List HostPort) (user passwd vhost : Bytes)
      → channel (new_rbmq hosts) user passwd vhost ≡ missing_host_ports
  unfolding channel new_rbmq copy
  channel-new_rbmq hosts user passwd vhost = refl

-- What `Close` leaves: the error, the slice of connections, and the connections whose Close it has called, in order.
pub record Closed {ℓ} (Conn Err : Type ℓ) : Type ℓ where
  pub err : Option Err
  pub conns : List (Option Conn)
  pub calls : List Conn

module _ {ℓ} {Conn Err : Type ℓ} (close_conn : Conn → Option Err) where
  -- The loop, with the error that it has so far.
  unfoldable pub close_loop : List (Option Conn) → Option Err → Closed Conn Err
  close_loop [] err = record { err = err; conns = []; calls = [] }
  close_loop (none ∷ cs) err =
      let rest = close_loop cs err in record rest { conns = none ∷ rest.conns }
  close_loop (some c ∷ cs) err =
      let rest = close_loop cs (close_conn c) in
      record rest { conns = none ∷ rest.conns; calls = c ∷ rest.calls }

  -- The text that is wrapped around an error of the library is left out.
  unfoldable pub close : Rbmq Conn → Closed Conn Err
  close r = close_loop r.conns none

  -- The connections that are not nil.
  unfoldable pub open_conns : List (Option Conn) → List Conn
  open_conns [] = []
  open_conns (none ∷ cs) = open_conns cs
  open_conns (some c ∷ cs) = c ∷ open_conns cs

  -- What closing the last of some connections gives.
  unfoldable pub last_error : Option Err → List Conn → Option Err
  last_error e [] = e
  last_error e (c ∷ cs) = last_error (close_conn c) cs

  close_loop_lem :
      (cs : List (Option Conn)) (e : Option Err)
      → ((close_loop cs e).calls ≡ open_conns cs)
        × (open_conns (close_loop cs e).conns ≡ [])
        × (length (close_loop cs e).conns ≡ length cs)
        × ((close_loop cs e).err ≡ last_error e (open_conns cs))
  unfolding close_loop open_conns last_error
  close_loop_lem [] e = (refl, refl, refl, refl)
  close_loop_lem (none ∷ cs) e =
      let (a, b, c, d) = close_loop_lem cs e in (a, b, ap (λ n. suc n) c, d)
  close_loop_lem (some x ∷ cs) e =
      let (a, b, c, d) = close_loop_lem cs (close_conn x) in
      (ap (λ l. x ∷ l) a, b, ap (λ n. suc n) c, d)

  -- `Close` closes each connection that is not nil once, in the order of the slice, and leaves a slice of
  -- the same length with nil alone; its error is that of the last connection, whatever the others gave. A
  -- second `Close` closes nothing and gives no error.
  pub close_lem :
      (r : Rbmq Conn)
      → ((close r).calls ≡ open_conns r.conns)
        × (length (close r).conns ≡ length r.conns)
        × ((close r).err ≡ last_error none (open_conns r.conns))
        × ((close (record r { conns = (close r).conns })).calls ≡ [])
        × ((close (record r { conns = (close r).conns })).err ≡ none)
  unfolding close last_error
  close_lem r =
      let (a, b, c, d) = close_loop_lem r.conns none in
      let (p, q, s, t) = close_loop_lem (close r).conns none in
      (a, c, d, p ∙ b, t ∙ ap (λ l. last_error none l) b)

-- client.go: the errors of the library by identity, and `errors.Wrap`.
module _ {ℓ} {Err : Type ℓ} (same_error : Err → Err → Bool) (err_closed err_channel_max : Err)
    (wrap : Option Err → Bytes → Option Err) where
  unfoldable pub is_bad_conn : Err → Bool
  is_bad_conn err = same_error err err_closed

  unfoldable pub is_max_channel_size : Err → Bool
  is_max_channel_size err = same_error err err_channel_max

  unfoldable pub need_new_connection : Err → Bool
  need_new_connection err = is_bad_conn err || is_max_channel_size err

  -- `Publish` without its arguments, none of which it uses: it publishes nothing.
  unfoldable pub publish : Option Err
  publish = wrap none (codes "not implemented")
