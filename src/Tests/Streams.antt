-- ===== src/Tests/Streams.antt =====
-- Frames that are cut short, and the frames of two channels on one connection.
use gitbook_golang.Prelude.{◌≡◌, refl, some, List, [], ◌∷◌, ◌++◌, arith, take, drop}
use gitbook_golang.Amqp.Channel.{new_channel, Step, went, crashed, stuck}
use gitbook_golang.Amqp.Channel.Recv.{
  transition, accept_method, on_method, by_state, recv, recv_all,
}
use gitbook_golang.Amqp.Connection.{
  Connection, new_connection, store, dispatch_closed, dispatch_n_to, dispatch_n, demux, parse,
  and_demux_all, demux_all,
}
use gitbook_golang.Amqp.Connection.Delivered.{channel_at, delivery_frames}
use gitbook_golang.Amqp.Connection.Interleaved.{frames_of, demux_all-frames_of}
use gitbook_golang.Amqp.Connection.Written.{write_all, parse-cut}
use gitbook_golang.Amqp.Frame.{
  Frame, method_frame, heartbeat_frame, channel, octet, write_frame, write,
}
use gitbook_golang.Amqp.Frame.Read.{parse_method_frame, parse_frame, check_end, part, read_frame}
use gitbook_golang.Amqp.Frame.Stable.{read_frame-cut}
use gitbook_golang.Amqp.Frame.Typed.{Typed, read_frame-Typed}
use gitbook_golang.Amqp.Spec.Message.{tx_select, has_content}
use gitbook_golang.Amqp.Spec.Message.Read.{read_tx_method, read_method}
use gitbook_golang.Amqp.Spec.Settle.{read_tx_select}
use gitbook_golang.Amqp.Wire.{Bytes, ok, done, read_full, be_decode, read_uint}
use gitbook_golang.Amqp.Wire.Stable.{IsShort}
use gitbook_golang.Tests.{some_method, some_header, some_connection}
use gitbook_golang.Tests.Channels.{some_frames-AllWritable}

-- A frame of the eight octets 8 0 0 0 0 0 0 206.
abbrev some_heartbeat : Frame
some_heartbeat = heartbeat_frame (record { channel_id = 0 })

written_heartbeat : write some_heartbeat ≡ done ((8 ∷ 0 ∷ 0 ∷ 0 ∷ 0 ∷ 0 ∷ 0 ∷ []) ++ (206 ∷ []))
unfolding write write_frame octet
written_heartbeat = refl

read_frame-cut_example : IsShort (read_frame (8 ∷ 0 ∷ 0 ∷ 0 ∷ 0 ∷ 0 ∷ 0 ∷ []))
read_frame-cut_example =
    read_frame-cut some_heartbeat (8 ∷ 0 ∷ 0 ∷ 0 ∷ 0 ∷ 0 ∷ 0 ∷ []) (206 ∷ []) (omega arith)
      written_heartbeat (λ e. cc)

-- The frames of a delivery.
abbrev some_frames : List Frame
some_frames = delivery_frames 1 some_method some_header ((1 ∷ 2 ∷ []) ∷ []) (3 ∷ [])

parse-cut_example :
    (bytes : Bytes) × (write_all some_frames ≡ done bytes)
    × ((c : Connection)
        → parse c (bytes ++ (8 ∷ 0 ∷ 0 ∷ 0 ∷ 0 ∷ 0 ∷ 0 ∷ [])) ≡ some (demux_all c some_frames))
parse-cut_example =
    parse-cut some_frames some_heartbeat (8 ∷ 0 ∷ 0 ∷ 0 ∷ 0 ∷ 0 ∷ 0 ∷ []) (206 ∷ [])
      some_frames-AllWritable (omega arith) written_heartbeat (λ e. cc)

-- A method of channel 1, and a heartbeat.
abbrev two_channels : List Frame
two_channels = method_frame some_method ∷ some_heartbeat ∷ []

-- The connection that a step leaves.
abbrev left : Connection → Step Connection → Connection
left c (went d) = d
left c crashed = c
left c stuck = c

two_channels_went :
    demux_all some_connection two_channels
    ≡ went (left some_connection (demux_all some_connection two_channels))
unfolding demux_all and_demux_all demux channel dispatch_n dispatch_n_to new_connection
    dispatch_closed store recv by_state new_channel on_method accept_method has_content transition
two_channels_went = refl

demux_all-frames_of_example :
    recv_all (channel_at 1 some_connection) (frames_of 1 two_channels)
    ≡ went (channel_at 1 (left some_connection (demux_all some_connection two_channels)))
demux_all-frames_of_example =
    demux_all-frames_of 1 some_connection
      (left some_connection (demux_all some_connection two_channels)) two_channels (omega arith)
      two_channels_went

-- A tx.select on channel 3.
abbrev select_bytes : Bytes
select_bytes = 1 ∷ 0 ∷ 3 ∷ 0 ∷ 0 ∷ 0 ∷ 4 ∷ 0 ∷ 90 ∷ 0 ∷ 10 ∷ 206 ∷ []

abbrev select_frame : Frame
select_frame = method_frame (record {
  channel_id = 3;
  class_id = 90;
  method_id = 10;
  method = some (tx_select (record {}));
})

select_read : read_frame select_bytes ≡ ok select_frame []
unfolding read_frame read_full parse_frame part be_decode parse_method_frame read_uint read_method
    read_tx_method read_tx_select check_end
select_read = refl

read_frame-Typed_example :
    Typed
      (be_decode 0 (take 1 select_bytes))
      (be_decode 0 (take 2 (drop 1 select_bytes)))
      select_frame
read_frame-Typed_example = read_frame-Typed select_bytes [] select_frame select_read
