-- ===== src/Sniffer/Messages.antt =====
-- `handleMsg` of mq/amqpparser/main.go: what is reported of the deliveries of a capture. The timestamp of
-- the packet, which is read from a variable of another goroutine, is left out.
use gitbook_golang.Prelude.{
  ℕ, ◌^◌, ◌≤◌, ◌<◌, ◌≡◌, refl, true, Option, some, List, [], ◌∷◌, ◌++◌, bytes_eq, bytes_eq_refl,
  length,
}
use gitbook_golang.Amqp.Channel.{Channel, went}
use gitbook_golang.Amqp.Channel.Reassembly.{joined}
use gitbook_golang.Amqp.Connection.{Endpoint, Connection, parse}
use gitbook_golang.Amqp.Connection.Delivered.{channel_at, delivery_frames, parse-delivers}
use gitbook_golang.Amqp.Connection.Ready.{AllReady}
use gitbook_golang.Amqp.Connection.Written.{write_all, AllWritable}
use gitbook_golang.Amqp.Consumers.Received.{received}
use gitbook_golang.Amqp.Delivery.{Delivery, base_delivery, deliver_delivery}
use gitbook_golang.Amqp.Frame.{MethodFrame, HeaderFrame}
use gitbook_golang.Amqp.Parser.{WrappedMessage, wrap}
use gitbook_golang.Amqp.Spec.Content.{BasicDeliver}
use gitbook_golang.Amqp.Spec.Message.{basic_deliver}
use gitbook_golang.Amqp.Wire.{Bytes, done}
use gitbook_golang.Sniffer.MyMessage.{
  MyMessage, Unmarshalled, message, bad_time, too_short, marshal, unmarshal, unmarshal-marshal,
}

-- What one `Printf` tells; the body is printed in hexadecimal.
pub record Report {ℓ} (Instant : Type ℓ) : Type ℓ where
  pub pcap : Bytes
  pub server : Endpoint
  pub client : Endpoint
  pub raw : Bytes
  pub id : ℕ
  pub start : Instant

-- What comes in: the name of the next capture, a message, or the end of the context.
pub data Incoming : Type 0 where
  next_pcap : Bytes → Incoming
  wrapped_message : WrappedMessage → Incoming
  context_done : Incoming

-- Whether the loop still listens, has returned, or has ended the process by a panic.
pub data Fate : Type 0 where
  listens stops dies : Fate

pub record Handled {ℓ} (Instant : Type ℓ) : Type ℓ where
  pub fate : Fate
  pub reports : List (Report Instant)

module _ {ℓ} {Instant : Type ℓ} (marshal_time : Instant → Option Bytes)
    (unmarshal_time : Bytes → Option Instant) where
  unfoldable pub report : Bytes → WrappedMessage → MyMessage Instant → Report Instant
  report pcap msg mymsg = record {
    pcap = pcap;
    server = msg.connection_info.server_ep;
    client = msg.connection_info.client_ep;
    raw = msg.body;
    id = mymsg.id;
    start = mymsg.start;
  }

  -- A body whose time is malformed is passed over; one of fewer than four bytes panics.
  unfoldable pub and_handle :
      Bytes → WrappedMessage → Unmarshalled (MyMessage Instant) → Handled Instant → Handled Instant
  and_handle pcap msg (message m) rest = record rest { reports = report pcap msg m ∷ rest.reports }
  and_handle pcap msg bad_time rest = rest
  and_handle pcap msg too_short rest = record { fate = dies; reports = [] }

  -- The loop, with the name of the capture.
  unfoldable pub handle_loop : Bytes → List Incoming → Handled Instant
  handle_loop pcap [] = record { fate = listens; reports = [] }
  handle_loop pcap (next_pcap cpap ∷ es) = handle_loop cpap es
  handle_loop pcap (wrapped_message msg ∷ es) =
      and_handle pcap msg (unmarshal marshal_time unmarshal_time msg.body) (handle_loop pcap es)
  handle_loop pcap (context_done ∷ es) = record { fate = stops; reports = [] }

  unfoldable pub handle_msg : List Incoming → Handled Instant
  handle_msg es = handle_loop [] es

  -- A delivery with a message of MyMessage as its body, whose number has 32 bits and whose time is read
  -- back from its binary form, goes through the whole sniffer: on a connection all of whose channels are
  -- ready, the frames of its `basic.deliver` on a channel that is not 0, if they fit the wire format
  -- (with a size below 2^63 that the body frames reach with the last of them and not before), are
  -- written without an error; `Connection.Parse` on the bytes gives the consumer of its tag one more
  -- delivery; and of what the consumer's goroutine makes of this delivery, `handleMsg` reports the
  -- endpoints of the connection, the body, and the number and the time of the message.
  pub parse-reports :
      (c : Connection) (k : ℕ) (f : MethodFrame) (m : BasicDeliver) (h : HeaderFrame)
      (ps : List Bytes) (last : Bytes) (mymsg : MyMessage Instant) (startbuf : Bytes)
      → AllReady c
      → 0 < k
      → f.channel_id ≡ k
      → h.channel_id ≡ k
      → f.method ≡ some (basic_deliver m)
      → AllWritable (delivery_frames k f h ps last)
      → h.size < 2 ^ 63
      → length (joined ps) < h.size
      → h.size ≤ length (joined ps ++ last)
      → marshal_time mymsg.start ≡ some startbuf
      → unmarshal_time startbuf ≡ some mymsg.start
      → mymsg.id < 2 ^ 32
      → marshal marshal_time unmarshal_time mymsg ≡ some (joined ps ++ last)
      → (bytes : Bytes) × (d : Connection) × (ch : Channel) × (dl : Delivery) × (write_all
            (delivery_frames k f h ps last)
          ≡ done bytes)
        × (parse c bytes ≡ some (went d))
        × (d.channels k ≡ some ch)
        × (received m.consumer_tag ch.consumers
            ≡ received m.consumer_tag (channel_at k c).consumers ++ dl ∷ [])
        × (handle_msg (wrapped_message (wrap d.info k dl) ∷ []) ≡ record {
          fate = listens;
          reports =
              record {
                pcap = [];
                server = d.info.server_ep;
                client = d.info.client_ep;
                raw = joined ps ++ last;
                id = mymsg.id;
                start = mymsg.start;
              }
              ∷ [];
        })
  unfolding handle_msg handle_loop and_handle report wrap deliver_delivery base_delivery
  parse-reports c k f m h ps last mymsg startbuf r pos ef eh e w lt few full mt ut small whole =
      let (bytes, d, ch, written, parsed, at, arrived) =
        parse-delivers c k f m h ps last r pos ef eh e w lt few full in
      let (b, marshalled, read) =
        unmarshal-marshal marshal_time unmarshal_time mymsg startbuf mt ut small in
      let same : b ≡ joined ps ++ last = cc in
      let dl =
        deliver_delivery (channel_at k c).id
          (record m { properties = h.properties; body = joined ps ++ last }) in
      let decoded : unmarshal marshal_time unmarshal_time (joined ps ++ last) ≡ message mymsg =
        rw same at read in
      let own : bytes_eq m.consumer_tag m.consumer_tag ≡ true = bytes_eq_refl m.consumer_tag in
      let one_more = rw own at (arrived m.consumer_tag) in
      (bytes, d, ch, dl, written, parsed, at, one_more, rw decoded refl)
