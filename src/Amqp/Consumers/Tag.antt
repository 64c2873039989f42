-- ===== src/Amqp/Consumers/Tag.antt =====
-- The consumer tags that consumers.go makes.
use gitbook_golang.Prelude.{
  ℕ, ◌+◌, ◌%◌, ◌^◌, ◌≤◌, ◌<◌, ◌≡◌, sym, ap, ◌∙◌, ◌≢◌, inl, inr, ◌++◌, arith, ltb, if◌then◌else◌,
  Bool-cases, length, length-append,
}
use gitbook_golang.Amqp.Strings.{read_shortstr, write_shortstr, shortstr}
use gitbook_golang.Amqp.Wire.{Bytes}
use gitbook_golang.Amqp.Wire.Codec.{Codec, seq}
use gitbook_golang.Text.{
  codes, digits, format_uint, parse_uint, behind, behind-append, length-digits, parse_uint-digits,
  has_byte-digits,
}

-- `consumerTagLengthMax`
abbrev pub consumer_tag_length_max : ℕ
consumer_tag_length_max = 255

-- `commandNameBasedUniqueConsumerTag`: the tag, and `consumerSeq` after it.
unfoldable pub command_name_based_unique_consumer_tag : Bytes → ℕ → Bytes × ℕ
command_name_based_unique_consumer_tag command_name consumer_seq =
    let seq = (consumer_seq + 1) % 2 ^ 64 in
    let tag_prefix = codes "ctag-" in
    let tag_suffix = codes "-" ++ format_uint seq in
    let tag_infix =
      if ltb consumer_tag_length_max (length tag_prefix + length command_name + length tag_suffix)
      then codes "streadway/amqp"
      else command_name in
    (tag_prefix ++ (tag_infix ++ tag_suffix), seq)

-- The suffix has at most twenty digits.
length-suffix : (seq : ℕ) → length (codes "-" ++ format_uint seq) ≤ 21
unfolding format_uint
length-suffix seq = omega (arith, length-digits 20 seq)

-- Whatever the command is called and however many tags were made: the tag has at most 255 bytes, so
-- writeShortstr writes all of it, and readShortstr gives it back.
pub tag-shortstr :
    (name : Bytes) (seq : ℕ)
    → (length (command_name_based_unique_consumer_tag name seq).0 ≤ consumer_tag_length_max)
      × Codec
          (write_shortstr (command_name_based_unique_consumer_tag name seq).0)
          read_shortstr
          (command_name_based_unique_consumer_tag name seq).0
unfolding command_name_based_unique_consumer_tag
tag-shortstr name seq =
    let suffix = codes "-" ++ format_uint ((seq + 1) % 2 ^ 64) in
    let few = length-suffix ((seq + 1) % 2 ^ 64) in
    elim (Bool-cases (ltb 255 (5 + length name + length suffix))) [
      | inl y ↦
          let bound : length (codes "ctag-" ++ (codes "streadway/amqp" ++ suffix)) ≤ 255 =
            omega arith in
          rw y (bound, shortstr (omega arith))
      | inr y ↦
          let bound : length (codes "ctag-" ++ (name ++ suffix)) ≤ 255 =
            ground (arith, length-append name suffix) in
          rw y (bound, shortstr (omega arith))
    ]

-- The number of the tag stands behind its last dash.
tag-number :
    (name : Bytes) (seq : ℕ)
    → parse_uint 0 (behind b'-' (command_name_based_unique_consumer_tag name seq).0)
      ≡ (seq + 1) % 2 ^ 64
unfolding command_name_based_unique_consumer_tag format_uint
tag-number name seq =
    let n = (seq + 1) % 2 ^ 64 in
    let ds = digits 20 n in
    let middle =
      if ltb 255 (5 + length name + length (codes "-" ++ ds))
      then codes "streadway/amqp"
      else name in
    let clean = has_byte-digits b'-' 20 n (inl (omega arith)) in
    rw (behind-append b'-' (codes "ctag-" ++ middle) ds clean)
      (parse_uint-digits 20 n (omega arith))

-- Tags that are made at two different values of the counter below 2^64 are different, whatever the
-- commands are called.
pub tags_differ :
    (a b : Bytes) (m n : ℕ)
    → m < 2 ^ 64
    → n < 2 ^ 64
    → m ≢ n
    → (command_name_based_unique_consumer_tag a m).0
      ≢ (command_name_based_unique_consumer_tag b n).0
tags_differ a b m n hm hn d e =
    let same : (m + 1) % 2 ^ 64 ≡ (n + 1) % 2 ^ 64 =
      sym (tag-number a m) ∙ ap (λ t. parse_uint 0 (behind b'-' t)) e ∙ tag-number b n in
    absurd (omega arith)
