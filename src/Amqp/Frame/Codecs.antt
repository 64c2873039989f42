-- ===== src/Amqp/Frame/Codecs.antt =====
-- Frames written and read (write.go, read.go).
use native.Mathlib.Nat.{mod-eq_of_lt}
use gitbook_golang.Prelude.{ℕ, ◌%◌, ◌^◌, ◌<◌, ◌≡◌, refl, Option, some, [], ◌∷◌, arith, length}
use gitbook_golang.Amqp.Frame.{
  MethodFrame, HeaderFrame, Frame, method_frame, header_frame, body_frame, heartbeat_frame,
  frame_method, frame_header, frame_body, frame_heartbeat, frame_end, octet, write_frame,
  with_payload, write_method, write_method_frame, write_header_frame, write,
}
use gitbook_golang.Amqp.Frame.Read.{
  parse_method_frame, parse_header_frame, parse_body_frame, parse_heartbeat_frame, parse_frame,
  check_end, part, read_frame,
}
use gitbook_golang.Amqp.Properties.Codecs.{FitsProperties, properties_codec}
use gitbook_golang.Amqp.Properties.Mask.{header_mask, header_mask-lt}
use gitbook_golang.Amqp.Properties.Write.{write_properties}
use gitbook_golang.Amqp.Spec.Message.{Message}
use gitbook_golang.Amqp.Spec.Message.Codecs.{
  FitsMessage, without_content, message_codec, class-lt, method-lt,
}
use gitbook_golang.Amqp.Spec.Message.Kinds.{message_id}
use gitbook_golang.Amqp.Spec.Message.Write.{write_message}
use gitbook_golang.Amqp.Strings.{body}
use gitbook_golang.Amqp.Wire.{Bytes, Written, done, ◌>>◌, be_decode, write_uint}
use gitbook_golang.Amqp.Wire.Codec.{Codec, seq, Codec-return, Codec-map}
use gitbook_golang.Amqp.Wire.Words.{read_full-append, uint}

abbrev pub FitsHeader : HeaderFrame → Type 0
FitsHeader f =
    (f.channel_id < 2 ^ 16)
    × (f.class_id < 2 ^ 16)
    × (f.weight < 2 ^ 16)
    × (f.size < 2 ^ 64)
    × FitsProperties f.properties

-- A method frame whose ids are those of its message, and whose message has no content yet.
pub record FitsMethod (f : MethodFrame) (m : Message) : Type 0 where
  pub channel : f.channel_id < 2 ^ 16
  pub method : f.method ≡ some m
  pub class_id : f.class_id ≡ (message_id m).0
  pub method_id : f.method_id ≡ (message_id m).1
  pub fits : FitsMessage m
  pub bare : without_content m ≡ m

abbrev pub IsWritable : Frame → Type 0
IsWritable (method_frame f) = (m : Message) × FitsMethod f m
IsWritable (header_frame f) = FitsHeader f
IsWritable (body_frame f) = (f.channel_id < 2 ^ 16) × (length f.body < 2 ^ 32)
IsWritable (heartbeat_frame f) = f.channel_id < 2 ^ 16

channel_octets :
    (typ channel : ℕ) (s : Bytes)
    → channel < 2 ^ 16
    → part 1 2 (typ ∷ octet channel 8 ∷ octet channel 0 ∷ s) ≡ channel
unfolding part octet be_decode
channel_octets typ channel s h = omega arith

size_octets :
    (a b c size : ℕ)
    → part 3 4 (a ∷ b ∷ c ∷ octet size 24 ∷ octet size 16 ∷ octet size 8 ∷ octet size 0 ∷ [])
      ≡ size % 2 ^ 32
unfolding part octet be_decode
size_octets a b c size = omega arith

type_octet : (typ : ℕ) (s : Bytes) → part 0 1 (typ ∷ s) ≡ typ
unfolding part be_decode
type_octet typ s = omega arith

end_codec : (f : Frame) → Codec (done (frame_end ∷ [])) (check_end f) f
unfolding check_end
end_codec f = record {
  bytes = frame_end ∷ [];
  writes = refl;
  reads = λ rest. rw (read_full-append (frame_end ∷ []) rest) (unfold be_decode in refl);
}

-- A payload between the header octets and the end octet.
framed :
    (typ channel : ℕ) (payload : Bytes) (f : Frame)
    → channel < 2 ^ 16
    → Codec (done payload) (parse_frame typ channel (length payload % 2 ^ 32)) f
    → Codec (write_frame typ channel payload) read_frame f
unfolding write_frame read_frame
framed typ channel payload f h c =
    let size = length payload in
    seq {w = done payload >> done (frame_end ∷ [])}
      (body (
        typ
        ∷ octet channel 8
        ∷ octet channel 0
        ∷ octet size 24
        ∷ octet size 16
        ∷ octet size 8
        ∷ octet size 0
        ∷ []))
      _
      (rw (type_octet typ _, channel_octets typ channel _ h, size_octets typ _ _ size)
        (seq c check_end (end_codec f)))

-- The payload is what a write in a buffer gives.
framed_payload :
    (w : Written) (typ channel : ℕ) (f : Frame)
    → channel < 2 ^ 16
    → ((size : ℕ) → Codec w (parse_frame typ channel size) f)
    → Codec (with_payload w (write_frame typ channel)) read_frame f
unfolding with_payload
framed_payload w typ channel f h c =
    let payload = (c 0).bytes in
    rw ((c 0).writes)
      (framed typ channel payload f h (rw (c 0).writes at (c (length payload % 2 ^ 32))))

method_payload :
    (f : MethodFrame) (m : Message) (size : ℕ)
    → FitsMethod f m
    → Codec
        (do write_uint 2 (message_id m).0; write_uint 2 (message_id m).1; write_message m)
        (parse_method_frame f.channel_id size)
        (method_frame f)
unfolding parse_method_frame
method_payload f m size h = seq (uint 2 (class-lt m)) _ (
    seq (uint 2 (method-lt m)) _ (
      Codec-map (message_codec m h.fits) _
        (λ rest. rw (h.bare, ← h.class_id, ← h.method_id, ← h.method))))

header_payload :
    (f : HeaderFrame) (size : ℕ)
    → FitsHeader f
    → Codec
        (do
          write_uint 2 f.class_id
          write_uint 2 f.weight
          write_uint 8 f.size
          write_uint 2 (header_mask f.properties)
          write_properties (header_mask f.properties) f.properties)
        (parse_header_frame f.channel_id size)
        (header_frame f)
unfolding parse_header_frame
header_payload f size h = seq (uint 2 h.1) _ (
    seq (uint 2 h.2) _ (
      seq (uint 8 h.3) _ (
        seq (uint 2 (header_mask-lt f.properties)) _
          (Codec-map (properties_codec f.properties h.4) _ (λ rest. refl)))))

method_written :
    (f : MethodFrame) (m : Message) (o : Option Message)
    → FitsMethod f m
    → o ≡ some m
    → Codec (write_method f.channel_id o) read_frame (method_frame f)
unfolding write_method parse_frame
method_written f m o h e =
    rw e
      (framed_payload _ frame_method f.channel_id _ h.channel (λ size. method_payload f m size h))

-- Every frame that fits the wire format is written without an error, and reading the bytes with
-- anything behind them gives the frame back and leaves what is behind.
pub frame_codec : (f : Frame) → IsWritable f → Codec (write f) read_frame f
unfolding write write_method_frame write_header_frame parse_frame parse_body_frame
    parse_heartbeat_frame
frame_codec (method_frame f) (m, h) = method_written f m f.method h h.method
frame_codec (header_frame f) h =
    framed_payload _ frame_header f.channel_id _ h.0 (λ size. header_payload f size h)
frame_codec (body_frame f) h =
    framed frame_body f.channel_id f.body _ h.0
      (rw (mod-eq_of_lt h.1) (Codec-map (body f.body) _ (λ rest. refl)))
frame_codec (heartbeat_frame f) h = framed frame_heartbeat f.channel_id [] _ h (Codec-return refl)
