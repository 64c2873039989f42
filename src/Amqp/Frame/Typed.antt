-- ===== src/Amqp/Frame/Typed.antt =====
-- What kind of frame `ReadFrame` gives, on which channel, and with which method (read.go, spec091.go).
use gitbook_golang.Prelude.{
  ℕ, ◌≡◌, refl, subst, inl, inr, some, [], ◌∷◌, ltb, ◌==◌, Bool-cases, take, drop,
}
use gitbook_golang.Amqp.Frame.{
  MethodFrame, HeaderFrame, BodyFrame, HeartbeatFrame, Frame, method_frame, header_frame,
  body_frame, heartbeat_frame, channel, frame_method, frame_header, frame_body, frame_heartbeat,
  frame_end,
}
use gitbook_golang.Amqp.Frame.Read.{
  parse_method_frame, parse_header_frame, parse_body_frame, parse_heartbeat_frame, parse_frame,
  check_end, part, read_frame,
}
use gitbook_golang.Amqp.Properties.Read.{read_properties}
use gitbook_golang.Amqp.Spec.Message.{Message}
use gitbook_golang.Amqp.Spec.Message.Ids.{read_method-IsOf}
use gitbook_golang.Amqp.Spec.Message.Kinds.{message_id}
use gitbook_golang.Amqp.Spec.Message.Read.{read_method}
use gitbook_golang.Amqp.Wire.{
  Bytes, err_frame, heartbeat_payload, Outcome, ok, read_full, be_decode, read_uint,
}
use gitbook_golang.Amqp.Wire.Gives.{
  Gives, ok-injective, Gives-pure, Gives-fail, Gives-if, and_then-ok, Gives-bind, read_full-take,
}

-- A frame of the type octet `typ` on `channel`; the struct of a method frame has the class and the number
-- of the frame.
pub data Typed (typ channel : ℕ) : Frame → Type 0 where
  typed_method :
      {f : MethodFrame} (m : Message)
      → typ ≡ frame_method
      → f.channel_id ≡ channel
      → f.method ≡ some m
      → message_id m ≡ (f.class_id, f.method_id)
      → Typed typ channel (method_frame f)
  typed_header :
      {f : HeaderFrame}
      → typ ≡ frame_header
      → f.channel_id ≡ channel
      → Typed typ channel (header_frame f)
  typed_body :
      {f : BodyFrame} → typ ≡ frame_body → f.channel_id ≡ channel → Typed typ channel (body_frame f)
  typed_heartbeat :
      {f : HeartbeatFrame}
      → typ ≡ frame_heartbeat
      → f.channel_id ≡ channel
      → Typed typ channel (heartbeat_frame f)

method_frame-Typed :
    (typ channel size : ℕ)
    → typ ≡ frame_method
    → Gives (Typed typ channel) (parse_method_frame channel size)
unfolding parse_method_frame
method_frame-Typed typ channel size h = Gives-bind (read_uint 2) _ (λ class.
    Gives-bind (read_uint 2) _ (λ number. record {
      at = λ s rest f e.
          let (m, t, read, given) = and_then-ok (read_method class number s) _ rest f e in
          subst (Typed typ channel) (ok-injective _ f t rest given)
            (typed_method m h refl refl ((read_method-IsOf class number).at s t m read));
    }))

header_frame-Typed :
    (typ channel size : ℕ)
    → typ ≡ frame_header
    → Gives (Typed typ channel) (parse_header_frame channel size)
unfolding parse_header_frame
header_frame-Typed typ channel size h = Gives-bind (read_uint 2) _ (λ class.
    Gives-bind (read_uint 2) _ (λ weight. Gives-bind (read_uint 8) _ (λ size.
      Gives-bind (read_uint 2) _ (λ flags.
        Gives-bind (read_properties flags) _ (λ props. Gives-pure _ (typed_header h refl))))))

body_frame-Typed :
    (typ channel size : ℕ)
    → typ ≡ frame_body
    → Gives (Typed typ channel) (parse_body_frame channel size)
unfolding parse_body_frame
body_frame-Typed typ channel size h = Gives-bind (read_full size) _ (λ body.
    Gives-pure (body_frame (record { channel_id = channel; body = body })) (typed_body h refl))

heartbeat_frame-Typed :
    (typ channel size : ℕ)
    → typ ≡ frame_heartbeat
    → Gives (Typed typ channel) (parse_heartbeat_frame channel size)
unfolding parse_heartbeat_frame
heartbeat_frame-Typed typ channel size h = elim (Bool-cases (ltb 0 size)) [
  | inl y ↦ rw y (Gives-fail heartbeat_payload)
  | inr n ↦ rw n (Gives-pure _ (typed_heartbeat h refl))
]

parse_frame-Typed :
    (typ channel size : ℕ) → Gives (Typed typ channel) (parse_frame typ channel size)
unfolding parse_frame
parse_frame-Typed typ channel size =
    Gives-if typ frame_method _ _ (method_frame-Typed typ channel size) (
      Gives-if typ frame_header _ _ (header_frame-Typed typ channel size) (
        Gives-if typ frame_body _ _ (body_frame-Typed typ channel size) (
          Gives-if typ frame_heartbeat _ _ (heartbeat_frame-Typed typ channel size)
            (Gives-fail err_frame))))

-- The first octets are those of the header that is read.
first_octets :
    (s : Bytes) → (take 1 (take 7 s) ≡ take 1 s) × (take 2 (drop 1 (take 7 s)) ≡ take 2 (drop 1 s))
first_octets [] = (refl, refl)
first_octets (x ∷ []) = (refl, refl)
first_octets (x ∷ y ∷ []) = (refl, refl)
first_octets (x ∷ y ∷ z ∷ s) = (refl, refl)

-- The octet behind a frame does not change it.
check_end-same : (g f : Frame) (s rest : Bytes) → check_end g s ≡ ok f rest → g ≡ f
unfolding check_end
check_end-same g f s rest e =
    let (last, t, one, two) = and_then-ok (read_full 1 s) _ rest f e in
    elim (Bool-cases (be_decode 0 last == frame_end)) [
      | inl y ↦ ok-injective g f t rest (rw y at two)
      | inr n ↦ let no : Outcome.err err_frame t ≡ ok f rest = rw n at two in absurd cc
    ]

-- Whatever bytes a frame is read from: it is of the kind that the octet 0 names, on the channel that the
-- octets 1 and 2 give, and a method frame carries a method of the class and the number that
-- stand in the frame.
pub read_frame-Typed :
    (s rest : Bytes) (f : Frame)
    → read_frame s ≡ ok f rest
    → Typed (be_decode 0 (take 1 s)) (be_decode 0 (take 2 (drop 1 s))) f
unfolding read_frame part check_end
read_frame-Typed s rest f e =
    let (scratch, t, one, two) = and_then-ok (read_full 7 s) _ rest f e in
    let first : scratch ≡ take 7 s = read_full-take 7 s t scratch one in
    let parsed = parse_frame (part 0 1 scratch) (part 1 2 scratch) (part 3 4 scratch) in
    let (g, u, three, four) = and_then-ok (parsed t) _ rest f two in
    let typed =
      (parse_frame-Typed (part 0 1 scratch) (part 1 2 scratch) (part 3 4 scratch)).at t u g three in
    let same : g ≡ f = check_end-same g f u rest four in
    let (kind, number) = first_octets s in
    rw (← kind, ← number, ← same)
      (subst (λ x. Typed (be_decode 0 (take 1 x)) (be_decode 0 (take 2 (drop 1 x))) g) first typed)
