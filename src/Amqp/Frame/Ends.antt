-- ===== src/Amqp/Frame/Ends.antt =====
-- `ReadFrame` on any bytes (read.go).
use gitbook_golang.Prelude.{ℕ, suc, ◌-◌, arith, length}
use gitbook_golang.Amqp.Frame.{Frame, channel}
use gitbook_golang.Amqp.Frame.Read.{
  parse_method_frame, parse_header_frame, parse_body_frame, parse_heartbeat_frame, parse_frame,
  check_end, read_frame,
}
use gitbook_golang.Amqp.Properties.Ends.{read_properties-Shrinks}
use gitbook_golang.Amqp.Spec.Message.Ends.{read_method-Shrinks}
use gitbook_golang.Amqp.Wire.{Bytes}
use gitbook_golang.Amqp.Wire.Shrinks.{
  Ends, Shrinks, Ends-le, Ends-bind, Shrinks-bind, read_full-Ends, shrink_rules,
}

frame_header-Shrinks : (n channel size : ℕ) → Shrinks n (parse_header_frame channel size)
unfolding parse_header_frame
frame_header-Shrinks n channel size = search (shrink_rules, read_properties-Shrinks) depth 30

frame_method-Shrinks : (n channel size : ℕ) → Shrinks n (parse_method_frame channel size)
unfolding parse_method_frame
frame_method-Shrinks n channel size = search (shrink_rules, read_method-Shrinks) depth 30

parse_frame-Shrinks : (n typ channel size : ℕ) → Shrinks n (parse_frame typ channel size)
unfolding parse_frame parse_body_frame parse_heartbeat_frame
parse_frame-Shrinks n typ channel size =
    search (shrink_rules, frame_header-Shrinks, frame_method-Shrinks) depth 30

check_end-Shrinks : (n : ℕ) (f : Frame) → Shrinks n (check_end f)
unfolding check_end
check_end-Shrinks n f = search shrink_rules depth 20

-- Reading a frame returns, fails or panics on every input, and leaves at least the seven octets of the
-- frame's header less than it found, or nothing.
pub read_frame-Ends : (s : Bytes) → Ends (length s - 7) (read_frame s)
unfolding read_frame
read_frame-Ends s =
    Ends-bind _ (read_full-Ends 7 s)
      (λ scratch s' le.
        Ends-le
          ((Shrinks-bind (suc (length s')) _ _ (parse_frame-Shrinks _ _ _ _)
              (λ f. check_end-Shrinks _ f)).at
            s' (omega arith))
          le)
      (omega arith)
