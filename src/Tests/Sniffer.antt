-- ===== src/Tests/Sniffer.antt =====
-- A packet to the server and its reply, and a message with a time of one octet.
use gitbook_golang.Prelude.{
  ℕ, ◌≡◌, refl, ◌≢◌, ◌⊎◌, Option, none, some, List, [], ◌∷◌, ◌++◌, arith, bytes_eq,
}
use gitbook_golang.Amqp.Channel.{Channel, went, crashed}
use gitbook_golang.Amqp.Connection.{Connection, parse}
use gitbook_golang.Amqp.Connection.Delivered.{channel_at, delivery_frames}
use gitbook_golang.Amqp.Connection.Ready.{new_connection-AllReady}
use gitbook_golang.Amqp.Connection.Written.{write_all, AllWritable, no_frames, and_frame}
use gitbook_golang.Amqp.Consumers.Received.{received}
use gitbook_golang.Amqp.Delivery.{Delivery}
use gitbook_golang.Amqp.Frame.{HeaderFrame}
use gitbook_golang.Amqp.Parser.{wrap, Parser, new_parser}
use gitbook_golang.Amqp.Parser.Total.{IsCalm, new_parser-IsCalm}
use gitbook_golang.Amqp.Spec.Message.{basic_deliver}
use gitbook_golang.Amqp.Wire.{Bytes, done, be_encode}
use gitbook_golang.Sniffer.{
  Packet, server_host, server_port, is_server_host, is_server_port, sides, packets,
}
use gitbook_golang.Sniffer.Directions.{reply, sides-reply}
use gitbook_golang.Sniffer.Messages.{wrapped_message, listens, handle_msg, parse-reports}
use gitbook_golang.Sniffer.MyMessage.{
  MyMessage, message, with_id, marshal, unmarshal, unmarshal-marshal,
}
use gitbook_golang.Sniffer.Streams.{payloads_of, Follows, Breaks, packets-Follows}
use gitbook_golang.Tests.{
  some_deliver, some_method, some_header, some_endpoint, some_connection,
  some_properties-FitsProperties, some_method-FitsMethod,
}

-- From a client to the server's host and port.
abbrev some_packet : Packet
some_packet = record {
  ipv4 = some (49 ∷ [], server_host);
  tcp = some (50 ∷ [], server_port);
  payload = none;
}

hosts_differ : is_server_host (49 ∷ []) ≢ is_server_host server_host
unfolding is_server_host bytes_eq
hosts_differ = cc

ports_differ : is_server_port (50 ∷ []) ≢ is_server_port server_port
unfolding is_server_port bytes_eq
ports_differ = cc

sides-reply_example : sides (reply some_packet (some (1 ∷ 2 ∷ []))) ≡ sides some_packet
sides-reply_example =
    sides-reply some_packet (some (1 ∷ 2 ∷ [])) (49 ∷ []) server_host (50 ∷ []) server_port refl
      refl hosts_differ ports_differ

-- Three packets of one client, two of them with a payload.
abbrev some_capture : List Packet
some_capture =
    reply some_packet (some (1 ∷ 2 ∷ []))
    ∷ some_packet
    ∷ record some_packet { payload = some (8 ∷ 0 ∷ 0 ∷ 0 ∷ 0 ∷ 0 ∷ 0 ∷ 206 ∷ []) }
    ∷ []

packets-Follows_example :
    ((port : Bytes) × (packets some_capture new_parser ≡ some crashed)
      × Breaks (new_parser.connections port) (payloads_of port some_capture))
    ⊎ ((q : Parser) × (packets some_capture new_parser ≡ some (went q))
        × IsCalm q
        × ((port : Bytes)
            → Follows
                (new_parser.connections port)
                (payloads_of port some_capture)
                (q.connections port)))
packets-Follows_example = packets-Follows some_capture new_parser new_parser-IsCalm

-- A time that is a number in one octet.
abbrev time_octet : ℕ → Option Bytes
time_octet t = some (t ∷ [])

abbrev octet_time : Bytes → Option ℕ
octet_time [] = none
octet_time (t ∷ s) = some t

abbrev some_message : MyMessage ℕ
some_message = record { id = 7; start = 5 }

unmarshal-marshal_example :
    (b : Bytes) × (marshal time_octet octet_time some_message ≡ some b)
    × (unmarshal time_octet octet_time b ≡ message some_message)
unmarshal-marshal_example =
    unmarshal-marshal time_octet octet_time some_message (5 ∷ []) refl refl (omega arith)

-- The header of a body of five octets, which is the message 7 at the time 5.
abbrev message_header : HeaderFrame
message_header = record some_header { size = 5 }

message_frames-AllWritable :
    AllWritable (delivery_frames 1 some_method message_header ((0 ∷ 0 ∷ []) ∷ []) (0 ∷ 7 ∷ 5 ∷ []))
message_frames-AllWritable =
    and_frame (basic_deliver some_deliver, some_method-FitsMethod)
      (and_frame
        (omega arith, omega arith, omega arith, omega arith, some_properties-FitsProperties)
        (and_frame (omega arith, omega arith) (and_frame (omega arith, omega arith) no_frames)))

some_marshalled : marshal time_octet octet_time some_message ≡ some (0 ∷ 0 ∷ 0 ∷ 7 ∷ 5 ∷ [])
unfolding marshal with_id be_encode
some_marshalled = refl

parse-reports_example :
    (bytes : Bytes) × (d : Connection) × (ch : Channel) × (dl : Delivery) × (write_all
        (delivery_frames 1 some_method message_header ((0 ∷ 0 ∷ []) ∷ []) (0 ∷ 7 ∷ 5 ∷ []))
      ≡ done bytes)
    × (parse some_connection bytes ≡ some (went d))
    × (d.channels 1 ≡ some ch)
    × (received some_deliver.consumer_tag ch.consumers
        ≡ received some_deliver.consumer_tag (channel_at 1 some_connection).consumers ++ dl ∷ [])
    × (handle_msg time_octet octet_time (wrapped_message (wrap d.info 1 dl) ∷ []) ≡ record {
      fate = listens;
      reports =
          record {
            pcap = [];
            server = d.info.server_ep;
            client = d.info.client_ep;
            raw = 0 ∷ 0 ∷ 0 ∷ 7 ∷ 5 ∷ [];
            id = 7;
            start = 5;
          }
          ∷ [];
    })
parse-reports_example =
    parse-reports time_octet octet_time some_connection 1 some_method some_deliver message_header
      ((0 ∷ 0 ∷ []) ∷ []) (0 ∷ 7 ∷ 5 ∷ []) some_message (5 ∷ [])
      (new_connection-AllReady some_endpoint some_endpoint) (omega arith) refl refl refl
      message_frames-AllWritable (omega arith) (omega arith) (omega arith) refl refl (omega arith)
      some_marshalled
