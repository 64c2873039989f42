-- ===== src/Amqp/Properties/Mask.antt =====
-- The mask of a content header: `mask = mask | flag` for each property that is not zero.
use gitbook_golang.Prelude.{
  ℕ, ◌^◌, ◌<◌, bit_or, ◌≡◌, refl, Bool, true, false, ◌&&◌, not, List, [], ◌∷◌, arith, ltb,
  if◌then◌else◌, ltb→lt, length,
}
use gitbook_golang.Amqp.Field.{Time, zero_time, unix, Table, no_entries, entry}
use gitbook_golang.Amqp.Properties.{
  Properties, flag_content_type, flag_content_encoding, flag_headers, flag_delivery_mode,
  flag_priority, flag_correlation_id, flag_reply_to, flag_expiration, flag_message_id,
  flag_timestamp, flag_type, flag_user_id, flag_app_id, flag_reserved1, has_property,
}

unfoldable pub set_flag : Bool → ℕ → ℕ → ℕ
set_flag present flag mask = if present then bit_or mask flag else mask

-- `len(table) > 0`
unfoldable pub has_entries : Table → Bool
has_entries no_entries = false
has_entries (entry k v t) = true

-- `timestamp != zeroTime`
unfoldable pub is_set : Time → Bool
is_set zero_time = false
is_set (unix s) = true

unfoldable pub mask_of :
    Bool → Bool → Bool → Bool → Bool → Bool → Bool → Bool → Bool → Bool → Bool → Bool → Bool → ℕ
mask_of b1 b2 b3 b4 b5 b6 b7 b8 b9 b10 b11 b12 b13 = set_flag b13 flag_app_id (
    set_flag b12 flag_user_id (
      set_flag b11 flag_type (
        set_flag b10 flag_timestamp (
          set_flag b9 flag_message_id (
            set_flag b8 flag_expiration (
              set_flag b7 flag_reply_to (
                set_flag b6 flag_correlation_id (
                  set_flag b5 flag_priority (
                    set_flag b4 flag_delivery_mode (
                      set_flag b3 flag_headers (
                        set_flag b2 flag_content_encoding
                          (set_flag b1 flag_content_type 0))))))))))))

unfoldable pub header_mask : Properties → ℕ
header_mask p =
    mask_of (ltb 0 (length p.content_type)) (ltb 0 (length p.content_encoding))
      (has_entries p.headers) (ltb 0 p.delivery_mode) (ltb 0 p.priority)
      (ltb 0 (length p.correlation_id)) (ltb 0 (length p.reply_to)) (ltb 0 (length p.expiration))
      (ltb 0 (length p.message_id)) (is_set p.timestamp) (ltb 0 (length p.type))
      (ltb 0 (length p.user_id)) (ltb 0 (length p.app_id))

-- A property of a Boolean holds of both.
every : (Bool → Bool) → Bool
every p = p true && p false

every_sound : (p : Bool → Bool) → every p ≡ true → (b : Bool) → p b ≡ true
unfolding every
every_sound p h true = ground arith
every_sound p h false = ground arith

same : Bool → Bool → Bool
same true b = b
same false b = not b

same→eq : (a b : Bool) → same a b ≡ true → a ≡ b
unfolding same
same→eq true true h = refl
same→eq true false h = cc
same→eq false true h = cc
same→eq false false h = refl

-- Facts checked together, and taken apart.
all_true : List Bool → Bool
all_true [] = true
all_true (b ∷ bs) = b && all_true bs

abbrev AllTrue : List Bool → Type 0
AllTrue [] = Unit {0}
AllTrue (b ∷ bs) = (b ≡ true) × AllTrue bs

all_true→AllTrue : (bs : List Bool) → all_true bs ≡ true → AllTrue bs
unfolding all_true
all_true→AllTrue [] h = tt
all_true→AllTrue (true ∷ bs) h = (refl, all_true→AllTrue bs h)
all_true→AllTrue (false ∷ bs) h = cc

-- The mask fits in 16 bits and has each flag exactly when its property is present.
checks :
    Bool
    → Bool
    → Bool
    → Bool
    → Bool
    → Bool
    → Bool
    → Bool
    → Bool
    → Bool
    → Bool
    → Bool
    → Bool
    → List Bool
checks b1 b2 b3 b4 b5 b6 b7 b8 b9 b10 b11 b12 b13 =
    ltb (mask_of b1 b2 b3 b4 b5 b6 b7 b8 b9 b10 b11 b12 b13) (2 ^ 16)
    ∷ same (has_property (mask_of b1 b2 b3 b4 b5 b6 b7 b8 b9 b10 b11 b12 b13) flag_content_type) b1
    ∷ same (has_property (mask_of b1 b2 b3 b4 b5 b6 b7 b8 b9 b10 b11 b12 b13) flag_content_encoding)
        b2
    ∷ same (has_property (mask_of b1 b2 b3 b4 b5 b6 b7 b8 b9 b10 b11 b12 b13) flag_headers) b3
    ∷ same (has_property (mask_of b1 b2 b3 b4 b5 b6 b7 b8 b9 b10 b11 b12 b13) flag_delivery_mode) b4
    ∷ same (has_property (mask_of b1 b2 b3 b4 b5 b6 b7 b8 b9 b10 b11 b12 b13) flag_priority) b5
    ∷ same (has_property (mask_of b1 b2 b3 b4 b5 b6 b7 b8 b9 b10 b11 b12 b13) flag_correlation_id)
        b6
    ∷ same (has_property (mask_of b1 b2 b3 b4 b5 b6 b7 b8 b9 b10 b11 b12 b13) flag_reply_to) b7
    ∷ same (has_property (mask_of b1 b2 b3 b4 b5 b6 b7 b8 b9 b10 b11 b12 b13) flag_expiration) b8
    ∷ same (has_property (mask_of b1 b2 b3 b4 b5 b6 b7 b8 b9 b10 b11 b12 b13) flag_message_id) b9
    ∷ same (has_property (mask_of b1 b2 b3 b4 b5 b6 b7 b8 b9 b10 b11 b12 b13) flag_timestamp) b10
    ∷ same (has_property (mask_of b1 b2 b3 b4 b5 b6 b7 b8 b9 b10 b11 b12 b13) flag_type) b11
    ∷ same (has_property (mask_of b1 b2 b3 b4 b5 b6 b7 b8 b9 b10 b11 b12 b13) flag_user_id) b12
    ∷ same (has_property (mask_of b1 b2 b3 b4 b5 b6 b7 b8 b9 b10 b11 b12 b13) flag_app_id) b13
    ∷ same (has_property (mask_of b1 b2 b3 b4 b5 b6 b7 b8 b9 b10 b11 b12 b13) flag_reserved1) false
    ∷ []

all_checked :
    every (λ b1. every (λ b2. every (λ b3. every (λ b4. every (λ b5. every (λ b6. every (λ b7.
      every (λ b8. every (λ b9. every (λ b10. every (λ b11. every (λ b12.
        every (λ b13. all_true (checks b1 b2 b3 b4 b5 b6 b7 b8 b9 b10 b11 b12 b13))))))))))))))
    ≡ true
unfolding checks all_true every same mask_of set_flag has_property
all_checked = refl

checked :
    (b1 b2 b3 b4 b5 b6 b7 b8 b9 b10 b11 b12 b13 : Bool)
    → AllTrue (checks b1 b2 b3 b4 b5 b6 b7 b8 b9 b10 b11 b12 b13)
checked b1 b2 b3 b4 b5 b6 b7 b8 b9 b10 b11 b12 b13 = all_true→AllTrue _ (
    every_sound _
      (every_sound _
        (every_sound _
          (every_sound _
            (every_sound _
              (every_sound _
                (every_sound _
                  (every_sound _
                    (every_sound _
                      (every_sound _
                        (every_sound _ (every_sound _ (every_sound _ all_checked b1) b2) b3) b4)
                      b5)
                    b6)
                  b7)
                b8)
              b9)
            b10)
          b11)
        b12)
      b13)

module _ (b1 b2 b3 b4 b5 b6 b7 b8 b9 b10 b11 b12 b13 : Bool) where
  pub mask-lt : mask_of b1 b2 b3 b4 b5 b6 b7 b8 b9 b10 b11 b12 b13 < 2 ^ 16
  unfolding checks
  mask-lt = ltb→lt _ _ (checked b1 b2 b3 b4 b5 b6 b7 b8 b9 b10 b11 b12 b13).0

  pub has-content_type :
      has_property (mask_of b1 b2 b3 b4 b5 b6 b7 b8 b9 b10 b11 b12 b13) flag_content_type ≡ b1
  unfolding checks
  has-content_type = same→eq _ _ (checked b1 b2 b3 b4 b5 b6 b7 b8 b9 b10 b11 b12 b13).1.0

  pub has-content_encoding :
      has_property (mask_of b1 b2 b3 b4 b5 b6 b7 b8 b9 b10 b11 b12 b13) flag_content_encoding ≡ b2
  unfolding checks
  has-content_encoding = same→eq _ _ (checked b1 b2 b3 b4 b5 b6 b7 b8 b9 b10 b11 b12 b13).1.1.0

  pub has-headers :
      has_property (mask_of b1 b2 b3 b4 b5 b6 b7 b8 b9 b10 b11 b12 b13) flag_headers ≡ b3
  unfolding checks
  has-headers = same→eq _ _ (checked b1 b2 b3 b4 b5 b6 b7 b8 b9 b10 b11 b12 b13).1.1.1.0

  pub has-delivery_mode :
      has_property (mask_of b1 b2 b3 b4 b5 b6 b7 b8 b9 b10 b11 b12 b13) flag_delivery_mode ≡ b4
  unfolding checks
  has-delivery_mode = same→eq _ _ (checked b1 b2 b3 b4 b5 b6 b7 b8 b9 b10 b11 b12 b13).1.1.1.1.0

  pub has-priority :
      has_property (mask_of b1 b2 b3 b4 b5 b6 b7 b8 b9 b10 b11 b12 b13) flag_priority ≡ b5
  unfolding checks
  has-priority = same→eq _ _ (checked b1 b2 b3 b4 b5 b6 b7 b8 b9 b10 b11 b12 b13).1.1.1.1.1.0

  pub has-correlation_id :
      has_property (mask_of b1 b2 b3 b4 b5 b6 b7 b8 b9 b10 b11 b12 b13) flag_correlation_id ≡ b6
  unfolding checks
  has-correlation_id =
      same→eq _ _ (checked b1 b2 b3 b4 b5 b6 b7 b8 b9 b10 b11 b12 b13).1.1.1.1.1.1.0

  pub has-reply_to :
      has_property (mask_of b1 b2 b3 b4 b5 b6 b7 b8 b9 b10 b11 b12 b13) flag_reply_to ≡ b7
  unfolding checks
  has-reply_to = same→eq _ _ (checked b1 b2 b3 b4 b5 b6 b7 b8 b9 b10 b11 b12 b13).1.1.1.1.1.1.1.0

  pub has-expiration :
      has_property (mask_of b1 b2 b3 b4 b5 b6 b7 b8 b9 b10 b11 b12 b13) flag_expiration ≡ b8
  unfolding checks
  has-expiration =
      same→eq _ _ (checked b1 b2 b3 b4 b5 b6 b7 b8 b9 b10 b11 b12 b13).1.1.1.1.1.1.1.1.0

  pub has-message_id :
      has_property (mask_of b1 b2 b3 b4 b5 b6 b7 b8 b9 b10 b11 b12 b13) flag_message_id ≡ b9
  unfolding checks
  has-message_id =
      same→eq _ _ (checked b1 b2 b3 b4 b5 b6 b7 b8 b9 b10 b11 b12 b13).1.1.1.1.1.1.1.1.1.0

  pub has-timestamp :
      has_property (mask_of b1 b2 b3 b4 b5 b6 b7 b8 b9 b10 b11 b12 b13) flag_timestamp ≡ b10
  unfolding checks
  has-timestamp =
      same→eq _ _ (checked b1 b2 b3 b4 b5 b6 b7 b8 b9 b10 b11 b12 b13).1.1.1.1.1.1.1.1.1.1.0

  pub has-type : has_property (mask_of b1 b2 b3 b4 b5 b6 b7 b8 b9 b10 b11 b12 b13) flag_type ≡ b11
  unfolding checks
  has-type =
      same→eq _ _ (checked b1 b2 b3 b4 b5 b6 b7 b8 b9 b10 b11 b12 b13).1.1.1.1.1.1.1.1.1.1.1.0

  pub has-user_id :
      has_property (mask_of b1 b2 b3 b4 b5 b6 b7 b8 b9 b10 b11 b12 b13) flag_user_id ≡ b12
  unfolding checks
  has-user_id =
      same→eq _ _ (checked b1 b2 b3 b4 b5 b6 b7 b8 b9 b10 b11 b12 b13).1.1.1.1.1.1.1.1.1.1.1.1.0

  pub has-app_id :
      has_property (mask_of b1 b2 b3 b4 b5 b6 b7 b8 b9 b10 b11 b12 b13) flag_app_id ≡ b13
  unfolding checks
  has-app_id =
      same→eq _ _ (checked b1 b2 b3 b4 b5 b6 b7 b8 b9 b10 b11 b12 b13).1.1.1.1.1.1.1.1.1.1.1.1.1.0

  pub has-reserved1 :
      has_property (mask_of b1 b2 b3 b4 b5 b6 b7 b8 b9 b10 b11 b12 b13) flag_reserved1 ≡ false
  unfolding checks
  has-reserved1 =
      same→eq _ _ (checked b1 b2 b3 b4 b5 b6 b7 b8 b9 b10 b11 b12 b13).1.1.1.1.1.1.1.1.1.1.1.1.1.1.0

pub header_mask-lt : (p : Properties) → header_mask p < 2 ^ 16
unfolding header_mask
header_mask-lt p = mask-lt _ _ _ _ _ _ _ _ _ _ _ _ _
