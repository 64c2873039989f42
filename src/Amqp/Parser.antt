-- ===== src/Amqp/Parser.antt =====
-- parser.go: the connections of a capture, one for each port of a client, and the messages that the
-- goroutines of the consumers (channel.go) send on.
pub mod Ports
pub mod Total
use gitbook_golang.Prelude.{ℕ, Option, none, some, if◌then◌else◌, bytes_eq}
use gitbook_golang.Amqp.Channel.{Step, went, crashed, stuck}
use gitbook_golang.Amqp.Connection.{Endpoint, ConnectionInfo, Connection, new_connection, parse}
use gitbook_golang.Amqp.Delivery.{Delivery}
use gitbook_golang.Amqp.Wire.{Bytes}

-- What the goroutine of a consumer sends on `chMsg` for a delivery of channel `id`.
pub record WrappedMessage : Type 0 where
  pub connection_info : ConnectionInfo
  pub channel_id : ℕ
  pub consumer_tag : Bytes
  pub body : Bytes

unfoldable pub wrap : ConnectionInfo → ℕ → Delivery → WrappedMessage
wrap info id d = record {
  connection_info = info;
  channel_id = id;
  consumer_tag = d.consumer_tag;
  body = d.body;
}

-- `connections` is the map, `none` where it has no key.
pub record Parser : Type 0 where
  pub connections : Bytes → Option Connection

unfoldable pub new_parser : Parser
new_parser = record { connections = λ port. none }

unfoldable pub set_connection : Bytes → Connection → Parser → Parser
set_connection port c p = record {
  connections = λ q. if bytes_eq port q then some c else p.connections q;
}

unfoldable pub or_connect : Endpoint → Endpoint → Parser → Option Connection → Connection × Parser
or_connect sep cep p (some c) = (c, p)
or_connect sep cep p none = let c = new_connection sep cep in (c, set_connection cep.port c p)

-- Only the port of the client is the key.
unfoldable pub get_connection : Parser → Endpoint → Endpoint → Connection × Parser
get_connection p sep cep = or_connect sep cep p (p.connections cep.port)

-- The connection is behind a pointer: what it becomes stands in the map.
unfoldable pub keep : Bytes → Parser → Step Connection → Step Parser
keep port p (went c) = went (set_connection port c p)
keep port p crashed = crashed
keep port p stuck = stuck

unfoldable pub keep_result : Bytes → Parser → Option (Step Connection) → Option (Step Parser)
keep_result port p (some s) = some (keep port p s)
keep_result port p none = none

-- The loop is that of `Connection.Parse`; `none` is only for fuel that has run out.
unfoldable pub parse_payload : Parser → Bytes → Endpoint → Endpoint → Option (Step Parser)
parse_payload p payload sep cep =
    let got = get_connection p sep cep in keep_result cep.port got.1 (parse got.0 payload)
