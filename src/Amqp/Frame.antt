-- ===== src/Amqp/Frame.antt =====
-- Frames (types.go): the four kinds, and how each is written (write.go).
pub mod Read
pub mod Codecs
pub mod Ends
pub mod Stable
pub mod Typed
use gitbook_golang.Prelude.{ℕ, ◌/◌, ◌%◌, ◌^◌, Option, none, some, [], ◌∷◌, length}
use gitbook_golang.Amqp.Properties.{Properties}
use gitbook_golang.Amqp.Properties.Mask.{header_mask}
use gitbook_golang.Amqp.Properties.Write.{write_properties}
use gitbook_golang.Amqp.Spec.Message.{Message}
use gitbook_golang.Amqp.Spec.Message.Kinds.{message_id}
use gitbook_golang.Amqp.Spec.Message.Write.{write_message}
use gitbook_golang.Amqp.Wire.{Bytes, missing_method, ◌>>=◌, Written, done, failed, ◌>>◌, write_uint}

-- `method` is `none` where the Go field is nil.
pub record MethodFrame : Type 0 where
  pub channel_id : ℕ
  pub class_id : ℕ
  pub method_id : ℕ
  pub method : Option Message

pub record HeaderFrame : Type 0 where
  pub channel_id : ℕ
  pub class_id : ℕ
  pub weight : ℕ
  pub size : ℕ
  pub properties : Properties

pub record BodyFrame : Type 0 where
  pub channel_id : ℕ
  pub body : Bytes

pub record HeartbeatFrame : Type 0 where
  pub channel_id : ℕ

pub data Frame : Type 0 where
  method_frame : MethodFrame → Frame
  header_frame : HeaderFrame → Frame
  body_frame : BodyFrame → Frame
  heartbeat_frame : HeartbeatFrame → Frame

-- `frame.channel()`
unfoldable pub channel : Frame → ℕ
channel (method_frame f) = f.channel_id
channel (header_frame f) = f.channel_id
channel (body_frame f) = f.channel_id
channel (heartbeat_frame f) = f.channel_id

abbrev pub frame_method : ℕ
frame_method = 1

abbrev pub frame_header : ℕ
frame_header = 2

abbrev pub frame_body : ℕ
frame_body = 3

abbrev pub frame_heartbeat : ℕ
frame_heartbeat = 8

abbrev pub frame_end : ℕ
frame_end = 206

-- `byte((x & (0xff << k)) >> k)`
unfoldable pub octet : ℕ → ℕ → ℕ
octet x k = x / 2 ^ k % 256

-- `writeFrame`
unfoldable pub write_frame : ℕ → ℕ → Bytes → Written
write_frame typ channel payload =
    let size = length payload in
    do
      done (
          typ
          ∷ octet channel 8
          ∷ octet channel 0
          ∷ octet size 24
          ∷ octet size 16
          ∷ octet size 8
          ∷ octet size 0
          ∷ [])
      done payload
      done (frame_end ∷ [])

-- A payload is built in a buffer first.
unfoldable pub with_payload : Written → (Bytes → Written) → Written
with_payload (done payload) f = f payload
with_payload (failed e) f = failed e

unfoldable pub write_method : ℕ → Option Message → Written
write_method channel none = failed missing_method
write_method channel (some m) =
    let (class, number) = message_id m in
    with_payload (do write_uint 2 class; write_uint 2 number; write_message m)
      (write_frame frame_method channel)

unfoldable pub write_method_frame : MethodFrame → Written
write_method_frame f = write_method f.channel_id f.method

unfoldable pub write_header_frame : HeaderFrame → Written
write_header_frame f =
    let mask = header_mask f.properties in
    with_payload
      (do
        write_uint 2 f.class_id
        write_uint 2 f.weight
        write_uint 8 f.size
        write_uint 2 mask
        write_properties mask f.properties)
      (write_frame frame_header f.channel_id)

unfoldable pub write : Frame → Written
write (method_frame f) = write_method_frame f
write (header_frame f) = write_header_frame f
write (body_frame f) = write_frame frame_body f.channel_id f.body
write (heartbeat_frame f) = write_frame frame_heartbeat f.channel_id []
