-- ===== src/Amqp/Frame/Read.antt =====
-- `ReadFrame` and the parsers of the four kinds (read.go, spec091.go).
use gitbook_golang.Prelude.{ℕ, some, ltb, ◌==◌, if◌then◌else◌, take, drop}
use gitbook_golang.Amqp.Frame.{
  Frame, method_frame, header_frame, body_frame, heartbeat_frame, channel, frame_method,
  frame_header, frame_body, frame_heartbeat, frame_end,
}
use gitbook_golang.Amqp.Properties.Read.{read_properties}
use gitbook_golang.Amqp.Spec.Message.Read.{read_method}
use gitbook_golang.Amqp.Wire.{
  Bytes, err_frame, heartbeat_payload, Reader, pure, fail, ◌>>=◌, read_full, be_decode, read_uint,
}

-- The size of a method or header frame is not used: its parser stops where its fields end.
unfoldable pub parse_method_frame : ℕ → ℕ → Reader Frame
parse_method_frame channel size = do
  class ← read_uint 2
  number ← read_uint 2
  m ← read_method class number
  pure (
      method_frame
        (record { channel_id = channel; class_id = class; method_id = number; method = some m }))

unfoldable pub parse_header_frame : ℕ → ℕ → Reader Frame
parse_header_frame channel size = do
  class ← read_uint 2
  weight ← read_uint 2
  body_size ← read_uint 8
  flags ← read_uint 2
  props ← read_properties flags
  pure (
      header_frame (record {
        channel_id = channel;
        class_id = class;
        weight = weight;
        size = body_size;
        properties = props;
      }))

unfoldable pub parse_body_frame : ℕ → ℕ → Reader Frame
parse_body_frame channel size = do
  body ← read_full size
  pure (body_frame (record { channel_id = channel; body = body }))

unfoldable pub parse_heartbeat_frame : ℕ → ℕ → Reader Frame
parse_heartbeat_frame channel size =
    if ltb 0 size
    then fail heartbeat_payload
    else pure (heartbeat_frame (record { channel_id = channel }))

-- The `switch` on the type octet.
unfoldable pub parse_frame : ℕ → ℕ → ℕ → Reader Frame
parse_frame typ channel size =
    if typ == frame_method
    then parse_method_frame channel size
    else if typ == frame_header
    then parse_header_frame channel size
    else if typ == frame_body
    then parse_body_frame channel size
    else if typ == frame_heartbeat
    then parse_heartbeat_frame channel size
    else fail err_frame

-- The octet behind the payload.
unfoldable pub check_end : Frame → Reader Frame
check_end f = do
  last ← read_full 1
  if be_decode 0 last == frame_end then pure f else fail err_frame

-- `binary.BigEndian.Uint…(scratch[i:i+n])`
unfoldable pub part : ℕ → ℕ → Bytes → ℕ
part i n scratch = be_decode 0 (take n (drop i scratch))

unfoldable pub read_frame : Reader Frame
read_frame = do
  scratch ← read_full 7
  f ← parse_frame (part 0 1 scratch) (part 1 2 scratch) (part 3 4 scratch)
  check_end f
