-- ===== src/Amqp/Connection.antt =====
-- connection.go: a connection hands every frame to the channel of its number, and makes a channel
-- for a number that it meets the first time. The types of the endpoints are those of parser.go.
pub mod Delivered
pub mod Handshake
pub mod Interleaved
pub mod Loop
pub mod Ready
pub mod Total
pub mod Written
use mathlib.Core.Option
use gitbook_golang.Prelude.{
  ℕ, zero, suc, ◌+◌, Option, none, some, List, [], ◌∷◌, ◌++◌, map, ◌==◌, if◌then◌else◌, length,
}
use gitbook_golang.Amqp.Channel.{Channel, new_channel, Step, went, crashed, stuck}
use gitbook_golang.Amqp.Channel.Recv.{recv}
use gitbook_golang.Amqp.Frame.{
  Frame, method_frame, header_frame, body_frame, heartbeat_frame, channel,
}
use gitbook_golang.Amqp.Frame.Read.{read_frame}
use gitbook_golang.Amqp.Spec.Message.{
  Message, connection_close, connection_blocked, connection_unblocked,
}
use gitbook_golang.Amqp.Wire.{panicked, Bytes, eof, Outcome, ok, err, out_of_fuel}

pub record Endpoint : Type 0 where
  pub host : Bytes
  pub port : Bytes

pub record ConnectionInfo : Type 0 where
  pub server_ep : Endpoint
  pub client_ep : Endpoint

-- `rpc` is `none` for the nil channel; `channels` is the map, `none` where it has no key.
pub record Connection : Type 0 where
  pub info : ConnectionInfo
  pub rpc : Option (List (Option Message))
  pub channels : ℕ → Option Channel

unfoldable pub new_connection : Endpoint → Endpoint → Connection
new_connection sep cep = record {
  info = record { server_ep = sep; client_ep = cep };
  rpc = none;
  channels = λ id. none;
}

unfoldable pub set_channel : ℕ → Channel → Connection → Connection
set_channel id ch c = record c { channels = λ k. if k == id then some ch else c.channels k }

-- The channel is behind a pointer: what it becomes stands in the map.
unfoldable pub store : Connection → ℕ → Step Channel → Step Connection
store c id (went ch) = went (set_channel id ch c)
store c id crashed = crashed
store c id stuck = stuck

unfoldable pub to_connection_rpc : Connection → Option Message → Connection
to_connection_rpc c msg = record c { rpc = Option.map (λ log. log ++ msg ∷ []) c.rpc }

-- The three methods of the inner `switch` are only printed.
unfoldable pub dispatch0_method : Connection → Option Message → Connection
dispatch0_method c (some (connection_close m)) = c
dispatch0_method c (some (connection_blocked m)) = c
dispatch0_method c (some (connection_unblocked m)) = c
dispatch0_method c msg = to_connection_rpc c msg

unfoldable pub dispatch0 : Connection → Frame → Connection
dispatch0 c (method_frame f) = dispatch0_method c f.method
dispatch0 c (header_frame f) = c
dispatch0 c (body_frame f) = c
dispatch0 c (heartbeat_frame f) = c

-- A frame of a number that has no channel yet.
unfoldable pub dispatch_closed : Connection → Frame → Step Connection
dispatch_closed c f =
    let id = channel f in let ch = new_channel id in store (set_channel id ch c) id (recv ch f)

unfoldable pub dispatch_n_to : Connection → Frame → Option Channel → Step Connection
dispatch_n_to c f (some ch) = store c (channel f) (recv ch f)
dispatch_n_to c f none = dispatch_closed c f

unfoldable pub dispatch_n : Connection → Frame → Step Connection
dispatch_n c f = dispatch_n_to c f (c.channels (channel f))

unfoldable pub demux : Connection → Frame → Step Connection
demux c f = if channel f == 0 then went (dispatch0 c f) else dispatch_n c f

-- What one turn of the loop of `Parse` leads to.
pub data Turn : Type 0 where
  ended : Option (Step Connection) → Turn
  goes_on : Connection → Bytes → Turn

unfoldable pub handled : Bytes → Step Connection → Turn
handled s (went c) = goes_on c s
handled s crashed = ended (some crashed)
handled s stuck = ended (some stuck)

-- At io.EOF the loop returns; any other error is dropped, and the reader goes on where it stopped.
unfoldable pub turn : Connection → Outcome Frame → Turn
turn c (ok f s) = handled s (demux c f)
turn c (err eof s) = ended (some (went c))
turn c (err e s) = goes_on c s
turn c panicked = ended (some crashed)
turn c out_of_fuel = ended none

unfoldable pub and_turn :
    Turn → (Connection → Bytes → Option (Step Connection)) → Option (Step Connection)
and_turn (ended r) loop = r
and_turn (goes_on c s) loop = loop c s

-- `none` is only for fuel that has run out.
unfoldable pub parse_loop : ℕ → Connection → Bytes → Option (Step Connection)
parse_loop zero c s = none
parse_loop (suc n) c s = and_turn (turn c (read_frame s)) (λ d t. parse_loop n d t)

unfoldable pub parse : Connection → Bytes → Option (Step Connection)
parse c s = parse_loop (length s + 1) c s

unfoldable pub and_demux_all : Step Connection → (Connection → Step Connection) → Step Connection
and_demux_all (went c) rest = rest c
and_demux_all crashed rest = crashed
and_demux_all stuck rest = stuck

-- The frames of a stream, one after another.
unfoldable pub demux_all : Connection → List Frame → Step Connection
demux_all c [] = went c
demux_all c (f ∷ fs) = and_demux_all (demux c f) (λ d. demux_all d fs)
