-- ===== src/Amqp/Parser/Ports.antt =====
-- The connections of different clients, and the parsing of one payload after another.
use gitbook_golang.Prelude.{◌≡◌, refl, Option, none, some, arith, if◌then◌else◌, bytes_eq}
use gitbook_golang.Amqp.Channel.{went}
use gitbook_golang.Amqp.Connection.{Endpoint, Connection, new_connection, parse}
use gitbook_golang.Amqp.Parser.{
  Parser, set_connection, or_connect, get_connection, keep, keep_result, parse_payload,
}
use gitbook_golang.Amqp.Wire.{Bytes}

-- The connection that the payloads of a client with the endpoint `cep` go to.
abbrev pub or_new_connection : Endpoint → Endpoint → Option Connection → Connection
or_new_connection sep cep (some c) = c
or_new_connection sep cep none = new_connection sep cep

abbrev pub connection_of : Parser → Endpoint → Endpoint → Connection
connection_of p sep cep = or_new_connection sep cep (p.connections cep.port)

pub or_connect-connection :
    (p : Parser) (sep cep : Endpoint) (o : Option Connection)
    → (or_connect sep cep p o).0 ≡ or_new_connection sep cep o
unfolding or_connect
or_connect-connection p sep cep (some c) = refl
or_connect-connection p sep cep none = refl

-- What `get_connection` does to the map is overwritten by what the connection becomes.
or_connect-others :
    (p : Parser) (sep cep : Endpoint) (o : Option Connection) (d : Connection) (port : Bytes)
    → (set_connection cep.port d (or_connect sep cep p o).1).connections port
      ≡ (if bytes_eq cep.port port then some d else p.connections port)
unfolding or_connect set_connection
or_connect-others p sep cep (some c) d port = refl
or_connect-others p sep cep none d port = ground arith

-- A payload whose parsing returns on the connection of the client's port, or on a new one if there is
-- none: the connection that it leaves stands under that port, and the connections of all other ports
-- are those from before.
pub parse_payload-connection :
    (p : Parser) (payload : Bytes) (sep cep : Endpoint) (d : Connection)
    → parse (connection_of p sep cep) payload ≡ some (went d)
    → (q : Parser) × (parse_payload p payload sep cep ≡ some (went q))
      × ((port : Bytes)
          → q.connections port ≡ (if bytes_eq cep.port port then some d else p.connections port))
unfolding parse_payload get_connection keep keep_result
parse_payload-connection p payload sep cep d e = (
  set_connection cep.port d (get_connection p sep cep).1,
  rw (or_connect-connection p sep cep (p.connections cep.port), e) refl,
  or_connect-others p sep cep (p.connections cep.port) d,
)
