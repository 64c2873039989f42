-- ===== src/Amqp/Connection/Loop.antt =====
-- The input of the loop of `Parse`, and its end (connection.go, read.go).
use gitbook_golang.Prelude.{ℕ, ◌≤◌, ◌<◌, ◌≡◌, refl, ap, [], ◌∷◌, arith, length}
use gitbook_golang.Amqp.Frame.{Frame}
use gitbook_golang.Amqp.Frame.Ends.{read_frame-Ends}
use gitbook_golang.Amqp.Frame.Read.{read_frame}
use gitbook_golang.Amqp.Wire.{Bytes, eof, Outcome, ok, err}
use gitbook_golang.Amqp.Wire.Shrinks.{Ends, ok_ends, err_ends, panic_ends, read_full-nil}

pub read_frame-nil : read_frame [] ≡ err eof []
unfolding read_frame
read_frame-nil = rw (read_full-nil 6) refl

outcome_length : Outcome Frame → ℕ
outcome_length (ok f s) = length s
outcome_length _ = 0

ok-left : {m : ℕ} {r : Outcome Frame} {f : Frame} {t : Bytes} → Ends m r → r ≡ ok f t → length t ≤ m
unfolding outcome_length
ok-left (ok_ends h) e = let same = ap outcome_length e in omega arith
ok-left (err_ends h) e = cc
ok-left panic_ends e = cc

-- A frame that is read takes bytes off the input.
pub read_frame-shorter : (s t : Bytes) (f : Frame) → read_frame s ≡ ok f t → length t < length s
read_frame-shorter [] t f e = let none_left = read_frame-nil in cc
read_frame-shorter (x ∷ s) t f e = let left = ok-left (read_frame-Ends (x ∷ s)) e in omega arith
