-- ===== src/Sniffer.antt =====
-- mq/amqpparser/main.go: the packets of a capture, and which side of each is the server; the message
-- of mymessage.go is in Sniffer/MyMessage.
pub mod Directions
pub mod MyMessage
pub mod Messages
pub mod Streams
use gitbook_golang.Prelude.{Bool, Option, none, some, List, [], ◌∷◌, if◌then◌else◌, bytes_eq}
use gitbook_golang.Amqp.Channel.{Step, went, crashed, stuck}
use gitbook_golang.Amqp.Connection.{Endpoint}
use gitbook_golang.Amqp.Parser.{Parser, parse_payload}
use gitbook_golang.Amqp.Wire.{Bytes}

-- What gopacket finds in a packet: the source and the destination of its IPv4 layer as `String` gives
-- them, those of its TCP layer in decimal, and the payload of its application layer.
pub record Packet : Type 0 where
  pub ipv4 : Option (Bytes × Bytes)
  pub tcp : Option (Bytes × Bytes)
  pub payload : Option Bytes

-- The server and the client.
pub record Sides : Type 0 where
  pub server : Endpoint
  pub client : Endpoint

abbrev pub no_endpoint : Endpoint
no_endpoint = record { host = []; port = [] }

abbrev pub server_host : Bytes
server_host = 49 ∷ 57 ∷ 50 ∷ 46 ∷ 49 ∷ 54 ∷ 56 ∷ 46 ∷ 53 ∷ 48 ∷ 46 ∷ 51 ∷ 56 ∷ []

abbrev pub server_port : Bytes
server_port = 53 ∷ 54 ∷ 55 ∷ 50 ∷ []

unfoldable pub is_server_host : Bytes → Bool
is_server_host host = bytes_eq host server_host

unfoldable pub is_server_port : Bytes → Bool
is_server_port port = bytes_eq port server_port

unfoldable pub set_host : Bytes → Bytes → Sides → Sides
set_host src dst s =
    if is_server_host src
    then record { server = record s.server { host = src }; client = record s.client { host = dst } }
    else record { server = record s.server { host = dst }; client = record s.client { host = src } }

-- The closure `setIP`: it sets the ports.
unfoldable pub set_port : Bytes → Bytes → Sides → Sides
set_port src dst s =
    if is_server_port src
    then record { server = record s.server { port = src }; client = record s.client { port = dst } }
    else record { server = record s.server { port = dst }; client = record s.client { port = src } }

unfoldable pub set_hosts : Option (Bytes × Bytes) → Sides → Sides
set_hosts none s = s
set_hosts (some (src, dst)) s = set_host src dst s

unfoldable pub set_ports : Option (Bytes × Bytes) → Sides → Sides
set_ports none s = s
set_ports (some (src, dst)) s = set_port src dst s

unfoldable pub sides : Packet → Sides
sides p = set_ports p.tcp (set_hosts p.ipv4 (record { server = no_endpoint; client = no_endpoint }))

unfoldable pub parse_application : Parser → Sides → Option Bytes → Option (Step Parser)
parse_application parser s none = some (went parser)
parse_application parser s (some payload) = parse_payload parser payload s.server s.client

-- `printPacketInfo`, less what it prints.
unfoldable pub packet_info : Packet → Parser → Option (Step Parser)
packet_info p parser = parse_application parser (sides p) p.payload

unfoldable pub and_packets :
    Option (Step Parser) → (Parser → Option (Step Parser)) → Option (Step Parser)
and_packets (some (went parser)) rest = rest parser
and_packets (some crashed) rest = some crashed
and_packets (some stuck) rest = some stuck
and_packets none rest = none

-- The loop of `parsePcap` over the packets of a capture.
unfoldable pub packets : List Packet → Parser → Option (Step Parser)
packets [] parser = some (went parser)
packets (p ∷ ps) parser = and_packets (packet_info p parser) (λ q. packets ps q)
