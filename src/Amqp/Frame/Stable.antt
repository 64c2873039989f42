-- ===== src/Amqp/Frame/Stable.antt =====
-- `ReadFrame` with more bytes behind, and with too few (read.go).
use gitbook_golang.Prelude.{ℕ, ◌≡◌, sym, ◌∙◌, ◌≢◌, inl, inr, [], ◌∷◌, ◌++◌, append-nil}
use gitbook_golang.Amqp.Frame.{Frame, channel, write}
use gitbook_golang.Amqp.Frame.Codecs.{IsWritable, frame_codec}
use gitbook_golang.Amqp.Frame.Read.{
  parse_method_frame, parse_header_frame, parse_body_frame, parse_heartbeat_frame, parse_frame,
  check_end, read_frame,
}
use gitbook_golang.Amqp.Properties.Stable.{read_properties-Stable}
use gitbook_golang.Amqp.Spec.Message.Stable.{read_method-Stable}
use gitbook_golang.Amqp.Wire.{panicked, Bytes, Outcome, ok, err, out_of_fuel, done}
use gitbook_golang.Amqp.Wire.Codec.{reads_written}
use gitbook_golang.Amqp.Wire.Stable.{grown, IsShort, Stable, stable_rules}

frame_header-Stable : (channel size : ℕ) → Stable (parse_header_frame channel size)
unfolding parse_header_frame
frame_header-Stable channel size = search (stable_rules, read_properties-Stable) depth 30

frame_method-Stable : (channel size : ℕ) → Stable (parse_method_frame channel size)
unfolding parse_method_frame
frame_method-Stable channel size = search (stable_rules, read_method-Stable) depth 30

parse_frame-Stable : (typ channel size : ℕ) → Stable (parse_frame typ channel size)
unfolding parse_frame parse_body_frame parse_heartbeat_frame
parse_frame-Stable typ channel size =
    search (stable_rules, frame_header-Stable, frame_method-Stable) depth 30

check_end-Stable : (f : Frame) → Stable (check_end f)
unfolding check_end
check_end-Stable f = search stable_rules depth 20

pub read_frame-Stable : Stable read_frame
unfolding read_frame
read_frame-Stable = search (stable_rules, parse_frame-Stable, check_end-Stable) depth 30

-- An input that was read to its end was not read before it.
grown-ne-ok : (r : Outcome Frame) (f : Frame) (q : Bytes) → q ≢ [] → ok f [] ≢ grown r q
grown-ne-ok (ok g []) f q n e = n cc
grown-ne-ok (ok g (x ∷ t)) f q n e = cc
grown-ne-ok (err x t) f q n e = cc
grown-ne-ok panicked f q n e = cc
grown-ne-ok out_of_fuel f q n e = cc

-- The first bytes of a frame that fits the wire format, but not all of them, are never read as a
-- frame: `ReadFrame` returns io.EOF or io.ErrUnexpectedEOF, and has consumed all of them.
pub read_frame-cut :
    (f : Frame) (p q : Bytes)
    → IsWritable f
    → write f ≡ done (p ++ q)
    → q ≢ []
    → IsShort (read_frame p)
read_frame-cut f p q w e n = elim (read_frame-Stable.at p q) [
  | inl g ↦
      let whole : read_frame (p ++ q) ≡ ok f [] =
        rw append-nil at (reads_written (frame_codec f w) e []) in
      absurd (grown-ne-ok (read_frame p) f q n (sym whole ∙ g))
  | inr s ↦ s
]
