-- ===== src/Tests/Channels.antt =====
-- The machine of a channel, the connection and the parser on a delivery in two pieces.
use gitbook_golang.Prelude.{◌≡◌, refl, inl, some, [], ◌∷◌, ◌++◌, arith, if◌then◌else◌, bytes_eq}
use gitbook_golang.Amqp.Channel.{
  recv_method, recv_content, Channel, new_channel, Step, went, dispatch,
}
use gitbook_golang.Amqp.Channel.Delivered.{deliver_lem}
use gitbook_golang.Amqp.Channel.Reassembly.{body_frames, Filled, reassemble}
use gitbook_golang.Amqp.Channel.Recv.{transition, recv, recv_all}
use gitbook_golang.Amqp.Channel.Safe.{IsReady, tame_method, new_channel-IsReady, recv-IsReady}
use gitbook_golang.Amqp.Channel.Total.{Runs}
use gitbook_golang.Amqp.Connection.{Connection, demux, turn, and_turn, parse_loop, parse, demux_all}
use gitbook_golang.Amqp.Connection.Delivered.{channel_at, delivery_frames, parse-delivers}
use gitbook_golang.Amqp.Connection.Ready.{AllReady, new_connection-AllReady, demux-AllReady}
use gitbook_golang.Amqp.Connection.Total.{AllCalm, new_connection-AllCalm, parse-Finishes}
use gitbook_golang.Amqp.Connection.Written.{
  write_all, AllWritable, no_frames, and_frame, parse-write_all,
}
use gitbook_golang.Amqp.Consumers.Received.{received}
use gitbook_golang.Amqp.Delivery.{deliver_delivery}
use gitbook_golang.Amqp.Frame.{method_frame, header_frame, heartbeat_frame, channel}
use gitbook_golang.Amqp.Frame.Read.{read_frame}
use gitbook_golang.Amqp.Parser.{Parser, new_parser, parse_payload}
use gitbook_golang.Amqp.Parser.Ports.{parse_payload-connection}
use gitbook_golang.Amqp.Parser.Total.{IsCalm, new_parser-IsCalm, parse_payload-Finishes}
use gitbook_golang.Amqp.Spec.Message.{Message, basic_deliver, has_content}
use gitbook_golang.Amqp.Wire.{Bytes, done, read_full}
use gitbook_golang.Tests.{
  some_properties, some_deliver, some_method, some_header, some_endpoint, some_connection,
  some_properties-FitsProperties, some_method-FitsMethod,
}

recv-IsReady_example :
    (c : Channel) × (recv (new_channel 1) (method_frame some_method) ≡ went c) × IsReady c
recv-IsReady_example =
    recv-IsReady (new_channel 1) (method_frame some_method) (new_channel-IsReady 1) tame_method

-- The pieces 1 2 and 3.
reassemble_example :
    (whole : Message) × Filled (basic_deliver some_deliver) whole some_properties (1 ∷ 2 ∷ 3 ∷ [])
    × (recv_all (new_channel 1) (
          method_frame some_method
          ∷ header_frame some_header
          ∷ body_frames 1 ((1 ∷ 2 ∷ []) ∷ []) (3 ∷ []))
        ≡ transition recv_method (
            dispatch
              (record (new_channel 1) {
                recv = recv_content;
                message = some whole;
                header = some some_header;
                body = 1 ∷ 2 ∷ 3 ∷ [];
              })
              whole))
unfolding has_content
reassemble_example =
    reassemble (new_channel 1) some_method (basic_deliver some_deliver) some_header 1
      ((1 ∷ 2 ∷ []) ∷ []) (3 ∷ []) refl refl (omega arith) (omega arith) (omega arith)

deliver_lem_example :
    (c : Channel) × (recv_all (new_channel 1) (
        method_frame some_method
        ∷ header_frame some_header
        ∷ body_frames 1 ((1 ∷ 2 ∷ []) ∷ []) (3 ∷ []))
      ≡ went c)
    × IsReady c
    × (c.recv ≡ recv_method)
    × ((tag : Bytes)
        → received tag c.consumers ≡ (
            if bytes_eq (99 ∷ []) tag
            then received tag (new_channel 1).consumers
              ++ deliver_delivery 1
                  (record some_deliver { properties = some_properties; body = 1 ∷ 2 ∷ 3 ∷ [] })
                ∷ []
            else received tag (new_channel 1).consumers))
unfolding new_channel
deliver_lem_example =
    deliver_lem (new_channel 1) some_method some_deliver some_header 1 ((1 ∷ 2 ∷ []) ∷ []) (3 ∷ [])
      (new_channel-IsReady 1) refl (omega arith) (omega arith) (omega arith)

demux-AllReady_example :
    (d : Connection) × (demux some_connection (heartbeat_frame (record { channel_id = 0 }))
      ≡ went d)
    × AllReady d
unfolding channel
demux-AllReady_example =
    demux-AllReady some_connection (heartbeat_frame (record { channel_id = 0 }))
      (new_connection-AllReady some_endpoint some_endpoint) (inl refl)

-- Two octets are no frame.
parse-Finishes_example :
    (r : Step Connection) × (parse some_connection (1 ∷ 2 ∷ []) ≡ some r) × Runs AllCalm r
parse-Finishes_example =
    parse-Finishes some_connection (1 ∷ 2 ∷ []) (new_connection-AllCalm some_endpoint some_endpoint)

pub some_frames-AllWritable :
    AllWritable (delivery_frames 1 some_method some_header ((1 ∷ 2 ∷ []) ∷ []) (3 ∷ []))
some_frames-AllWritable =
    and_frame (basic_deliver some_deliver, some_method-FitsMethod)
      (and_frame
        (omega arith, omega arith, omega arith, omega arith, some_properties-FitsProperties)
        (and_frame (omega arith, omega arith) (and_frame (omega arith, omega arith) no_frames)))

parse-write_all_example :
    (bytes : Bytes) × (write_all
        (delivery_frames 1 some_method some_header ((1 ∷ 2 ∷ []) ∷ []) (3 ∷ []))
      ≡ done bytes)
    × ((c : Connection)
        → parse c bytes
          ≡ some (
              demux_all c (delivery_frames 1 some_method some_header ((1 ∷ 2 ∷ []) ∷ []) (3 ∷ []))))
parse-write_all_example =
    parse-write_all (delivery_frames 1 some_method some_header ((1 ∷ 2 ∷ []) ∷ []) (3 ∷ []))
      some_frames-AllWritable

parse-delivers_example :
    (bytes : Bytes) × (d : Connection) × (ch : Channel) × (write_all
        (delivery_frames 1 some_method some_header ((1 ∷ 2 ∷ []) ∷ []) (3 ∷ []))
      ≡ done bytes)
    × (parse some_connection bytes ≡ some (went d))
    × (d.channels 1 ≡ some ch)
    × ((tag : Bytes)
        → received tag ch.consumers ≡ (
            if bytes_eq (99 ∷ []) tag
            then received tag (channel_at 1 some_connection).consumers
              ++ deliver_delivery
                  (channel_at 1 some_connection).id
                  (record some_deliver { properties = some_properties; body = 1 ∷ 2 ∷ 3 ∷ [] })
                ∷ []
            else received tag (channel_at 1 some_connection).consumers))
parse-delivers_example =
    parse-delivers some_connection 1 some_method some_deliver some_header ((1 ∷ 2 ∷ []) ∷ [])
      (3 ∷ []) (new_connection-AllReady some_endpoint some_endpoint) (omega arith) refl refl refl
      some_frames-AllWritable (omega arith) (omega arith) (omega arith)

parse_payload-connection_example :
    (q : Parser) × (parse_payload new_parser [] some_endpoint some_endpoint ≡ some (went q))
    × ((port : Bytes)
        → q.connections port
          ≡ (if bytes_eq (50 ∷ []) port then some some_connection else new_parser.connections port))
unfolding new_parser parse parse_loop read_frame read_full turn and_turn
parse_payload-connection_example =
    parse_payload-connection new_parser [] some_endpoint some_endpoint some_connection refl

parse_payload-Finishes_example :
    (r : Step Parser) × (parse_payload new_parser (1 ∷ 2 ∷ []) some_endpoint some_endpoint ≡ some r)
    × Runs IsCalm r
parse_payload-Finishes_example =
    parse_payload-Finishes new_parser (1 ∷ 2 ∷ []) some_endpoint some_endpoint new_parser-IsCalm
