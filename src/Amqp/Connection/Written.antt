-- ===== src/Amqp/Connection/Written.antt =====
-- A stream of frames that is written, and then parsed (write.go, connection.go).
use gitbook_golang.Prelude.{
  ℕ, zero, suc, ◌+◌, ◌<◌, ◌≡◌, refl, ◌≢◌, some, List, [], ◌∷◌, ◌++◌, append_assoc, append-nil,
  arith, length,
}
use gitbook_golang.Amqp.Channel.{Step, went, crashed, stuck}
use gitbook_golang.Amqp.Connection.{
  Connection, demux, handled, turn, and_turn, parse_loop, parse, and_demux_all, demux_all,
}
use gitbook_golang.Amqp.Connection.Loop.{read_frame-nil, read_frame-shorter}
use gitbook_golang.Amqp.Frame.{Frame, write}
use gitbook_golang.Amqp.Frame.Codecs.{IsWritable, frame_codec}
use gitbook_golang.Amqp.Frame.Read.{read_frame}
use gitbook_golang.Amqp.Frame.Stable.{read_frame-cut}
use gitbook_golang.Amqp.Wire.{Bytes, Outcome, Written, done, return, ◌>>◌}
use gitbook_golang.Amqp.Wire.Stable.{IsShort, no_bytes, few_bytes}

-- The frames of a stream, written one after another.
abbrev pub write_all : List Frame → Written
write_all [] = return
write_all (f ∷ fs) = write f >> write_all fs

pub data AllWritable : List Frame → Type 0 where
  no_frames : AllWritable []
  and_frame : {f : Frame} {fs : List Frame} → IsWritable f → AllWritable fs → AllWritable (f ∷ fs)

-- What a turn does after the frame that it has read.
turn-frame :
    (n : ℕ) (s : Bytes) (st : Step Connection) (rest : Connection → Step Connection)
    → ((d : Connection) → parse_loop n d s ≡ some (rest d))
    → and_turn (handled s st) (λ d t. parse_loop n d t) ≡ some (and_demux_all st rest)
unfolding and_turn handled and_demux_all
turn-frame n s (went c) rest h = h c
turn-frame n s crashed rest h = refl
turn-frame n s stuck rest h = refl

-- Nothing that `Parse` makes a frame of.
record IsIdle (tail : Bytes) : Type 0 where
  idles : (n : ℕ) (c : Connection) → length tail < n → parse_loop n c tail ≡ some (went c)

nil-IsIdle : IsIdle []
unfolding parse_loop turn and_turn
nil-IsIdle = record {
  idles = elim [ zero ↦ λ c h. absurd (omega arith) | suc n ↦ λ c h. rw read_frame-nil refl ];
}

short_turn :
    (n : ℕ) (c : Connection) (r : Outcome Frame)
    → IsShort r
    → 0 < n
    → and_turn (turn c r) (λ d t. parse_loop n d t) ≡ some (went c)
unfolding turn and_turn
short_turn n c r no_bytes h = refl
short_turn n c r few_bytes h = nil-IsIdle.idles n c h

short-IsIdle : (tail : Bytes) → IsShort (read_frame tail) → IsIdle tail
unfolding parse_loop
short-IsIdle [] h = nil-IsIdle
short-IsIdle (x ∷ s) h = record {
  idles = elim [
    | zero ↦ λ c lt. absurd (omega arith)
    | suc n ↦ λ c lt. short_turn n c _ h (omega arith)
  ];
}

-- The frames `fs`, and the idle bytes `tail` behind them.
record Parses (tail : Bytes) (fs : List Frame) : Type 0 where
  bytes : Bytes
  writes : write_all fs ≡ done bytes
  parses :
      (n : ℕ) (c : Connection)
      → length (bytes ++ tail) < n
      → parse_loop n c (bytes ++ tail) ≡ some (demux_all c fs)

Parses-nil : {tail : Bytes} → IsIdle tail → Parses tail []
unfolding demux_all
Parses-nil i = record { bytes = []; writes = refl; parses = λ n c h. i.idles n c h }

Parses-cons :
    {tail : Bytes} (f : Frame) (fs : List Frame)
    → IsWritable f
    → Parses tail fs
    → Parses tail (f ∷ fs)
unfolding parse_loop turn demux_all
Parses-cons {tail} f fs w p =
    let k = frame_codec f w in
    let rest = p.bytes ++ tail in
    record {
      bytes = k.bytes ++ p.bytes;
      writes = rw (k.writes, p.writes) refl;
      parses = elim [
        | zero ↦ λ c h. absurd (omega arith)
        | suc n ↦ λ c h.
            let shorter = read_frame-shorter (k.bytes ++ rest) rest f (k.reads rest) in
            let same : (k.bytes ++ p.bytes) ++ tail ≡ k.bytes ++ rest =
              append_assoc k.bytes p.bytes tail in
            let enough : length (k.bytes ++ rest) < suc n = rw same at h in
            rw (same, k.reads rest)
              (turn-frame n rest (demux c f) _ (λ d. p.parses n d (omega arith)))
      ];
    }

Parses-all : {tail : Bytes} (fs : List Frame) → IsIdle tail → AllWritable fs → Parses tail fs
Parses-all [] i no_frames = Parses-nil i
Parses-all (f ∷ fs) i (and_frame w ws) = Parses-cons f fs w (Parses-all fs i ws)

-- Frames that fit the wire format are written without an error, and `Parse` on the bytes hands
-- exactly these frames to the connection, one after another.
pub parse-write_all :
    (fs : List Frame)
    → AllWritable fs
    → (bytes : Bytes) × (write_all fs ≡ done bytes)
      × ((c : Connection) → parse c bytes ≡ some (demux_all c fs))
unfolding parse
parse-write_all fs w =
    let p = Parses-all fs nil-IsIdle w in
    let same : p.bytes ++ [] ≡ p.bytes = append-nil p.bytes in
    (p.bytes, p.writes, λ c. rw same at (p.parses (length p.bytes + 1) c (rw same (omega arith))))

-- Frames that fit the wire format, and behind them the first bytes of one more, but not all of them:
-- `Parse` hands exactly the whole frames to the connection, one after another, and drops the bytes of
-- the last one.
pub parse-cut :
    (fs : List Frame) (f : Frame) (p q : Bytes)
    → AllWritable fs
    → IsWritable f
    → write f ≡ done (p ++ q)
    → q ≢ []
    → (bytes : Bytes) × (write_all fs ≡ done bytes)
      × ((c : Connection) → parse c (bytes ++ p) ≡ some (demux_all c fs))
unfolding parse
parse-cut fs f p q w wf e n =
    let r = Parses-all fs (short-IsIdle p (read_frame-cut f p q wf e n)) w in
    (r.bytes, r.writes, λ c. r.parses (length (r.bytes ++ p) + 1) c (omega arith))
