-- ===== src/Rabbitmq/Url.antt =====
-- `amqpURL` of mq/rabbitmq/rbmq/rbmq.go, and what it takes from net/url: PathEscape.
use gitbook_golang.Prelude.{
  ℕ, ◌+◌, ◌-◌, ◌*◌, ◌/◌, ◌%◌, ◌<◌, ◌≡◌, refl, ap, ◌∙◌, inl, inr, Bool, true, false, ◌&&◌, ◌||◌, [],
  ◌∷◌, ◌++◌, arith, ltb, leb, ◌==◌, if◌then◌else◌, Bool-cases,
}
use gitbook_golang.Amqp.Wire.{Bytes}
use gitbook_golang.Text.{codes, has_byte, behind, has_byte-append, behind-append}

-- The bytes that a segment of a path may have as they are.
unfoldable pub is_kept : ℕ → Bool
is_kept c =
    (leb b'a' c && leb c b'z')
    || (leb b'A' c && leb c b'Z')
    || (leb b'0' c && leb c b'9')
    || has_byte c (codes "-_.~$&+:=@")

unfoldable pub hex_digit : ℕ → ℕ
hex_digit d = if ltb d 10 then b'0' + d else b'A' + (d - 10)

unfoldable pub escape_byte : ℕ → Bytes
escape_byte c = if is_kept c then c ∷ [] else b'%' ∷ hex_digit (c / 16) ∷ hex_digit (c % 16) ∷ []

unfoldable pub path_escape : Bytes → Bytes
path_escape [] = []
path_escape (c ∷ cs) = escape_byte c ++ path_escape cs

-- The URL that is dialed; the line that is printed is left out.
abbrev pub before_vhost : Bytes → Bytes → Bytes → Bytes → Bytes
before_vhost username password host port =
    codes "amqp://" ++ username ++ codes ":" ++ password ++ codes "@" ++ host ++ codes ":" ++ port

unfoldable pub amqp_url : Bytes → Bytes → Bytes → Bytes → Bytes → Bytes
amqp_url username password host port vhost =
    before_vhost username password host port ++ (codes "/" ++ path_escape vhost)

-- Where a reader of an escaped text is: outside an escape, behind its `%`, or behind its first digit.
pub data Place : Type 0 where
  outside behind_percent : Place
  behind_digit : ℕ → Place

unfoldable pub digit_value : ℕ → ℕ
digit_value c = if leb c b'9' then c - b'0' else c - b'A' + 10

-- The text that is meant: two hexadecimal digits behind a `%` are one byte.
unfoldable pub unescape : Place → Bytes → Bytes
unescape p [] = []
unescape outside (x ∷ xs) =
    let escaped = unescape behind_percent xs in
    let plain = unescape outside xs in if x == b'%' then escaped else x ∷ plain
unescape behind_percent (x ∷ xs) = unescape (behind_digit (digit_value x)) xs
unescape (behind_digit d) (x ∷ xs) = (16 * d + digit_value x) ∷ unescape outside xs

digit_value-hex_digit : (d : ℕ) → d < 16 → digit_value (hex_digit d) ≡ d
unfolding digit_value hex_digit
digit_value-hex_digit d h = ground arith

kept-other : (c k : ℕ) → is_kept k ≡ false → is_kept c ≡ true → (c == k) ≡ false
kept-other c k escaped kept = elim (Bool-cases (c == k)) [
  | inl y ↦
      let same : c ≡ k = ground arith in absurd (let no : is_kept c ≡ false = rw same escaped in cc)
  | inr n ↦ n
]

percent_escaped : is_kept b'%' ≡ false
unfolding is_kept has_byte
percent_escaped = refl

slash_escaped : is_kept b'/' ≡ false
unfolding is_kept has_byte
slash_escaped = refl

unescape-escape_byte :
    (c : ℕ) (rest : Bytes)
    → c < 256
    → unescape outside (escape_byte c ++ rest) ≡ c ∷ unescape outside rest
unfolding unescape escape_byte
unescape-escape_byte c rest h = elim (Bool-cases (is_kept c)) [
  | inl y ↦ rw (y, kept-other c b'%' percent_escaped y) refl
  | inr n ↦
      rw
        (
          n,
          digit_value-hex_digit (c / 16) (omega arith),
          digit_value-hex_digit (c % 16) (omega arith),
        )
        (ap (λ b. b ∷ unescape outside rest) (omega arith))
]

has_byte-escape_byte : (c : ℕ) → has_byte b'/' (escape_byte c) ≡ false
unfolding has_byte escape_byte hex_digit
has_byte-escape_byte c = elim (Bool-cases (is_kept c)) [
  | inl y ↦ rw (y, kept-other c b'/' slash_escaped y) refl
  | inr n ↦ rw n (ground arith)
]

has_byte-path_escape : (v : Bytes) → has_byte b'/' (path_escape v) ≡ false
unfolding path_escape has_byte
has_byte-path_escape [] = refl
has_byte-path_escape (c ∷ cs) =
    rw
      (
        has_byte-append b'/' (escape_byte c) (path_escape cs),
        has_byte-escape_byte c,
        has_byte-path_escape cs,
      )
      refl

pub data AreBytes : Bytes → Type 0 where
  no_bytes : AreBytes []
  a_byte : {c : ℕ} {cs : Bytes} → c < 256 → AreBytes cs → AreBytes (c ∷ cs)

unescape-path_escape : (v : Bytes) → AreBytes v → unescape outside (path_escape v) ≡ v
unfolding path_escape unescape
unescape-path_escape [] no_bytes = refl
unescape-path_escape (c ∷ cs) (a_byte h hs) =
    unescape-escape_byte c (path_escape cs) h ∙ ap (λ r. c ∷ r) (unescape-path_escape cs hs)

-- Whatever bytes the virtual host has, a slash or a percent sign among them, and whatever the other parts
-- of the URL are: what stands behind the last slash of the URL, with its escapes resolved, is the
-- virtual host.
pub amqp_url-vhost :
    (username password host port vhost : Bytes)
    → AreBytes vhost
    → unescape outside (behind b'/' (amqp_url username password host port vhost)) ≡ vhost
unfolding amqp_url
amqp_url-vhost username password host port vhost h =
    ap (λ s. unescape outside s)
      (behind-append b'/' (before_vhost username password host port) (path_escape vhost)
        (has_byte-path_escape vhost))
    ∙ unescape-path_escape vhost h
