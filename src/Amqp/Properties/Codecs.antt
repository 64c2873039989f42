-- ===== src/Amqp/Properties/Codecs.antt =====
-- The property list of a content header, written and read (write.go, read.go).
use gitbook_golang.Prelude.{ℕ, ◌^◌, ◌<◌, ◌≡◌, refl, Bool, true, false, [], ◌∷◌, arith, ltb, length}
use gitbook_golang.Amqp.Field.{Time, zero_time, unix, Table, no_entries, entry}
use gitbook_golang.Amqp.Field.Contents.{timestamp_codec}
use gitbook_golang.Amqp.Field.Encodable.{IsTable}
use gitbook_golang.Amqp.Field.Read.{read_timestamp}
use gitbook_golang.Amqp.Field.RoundTrip.{table_lem}
use gitbook_golang.Amqp.Field.Write.{unix_seconds}
use gitbook_golang.Amqp.Properties.{Properties}
use gitbook_golang.Amqp.Properties.Mask.{
  has_entries, is_set, header_mask, has-content_type, has-content_encoding, has-headers,
  has-delivery_mode, has-priority, has-correlation_id, has-reply_to, has-expiration, has-message_id,
  has-timestamp, has-type, has-user_id, has-app_id, has-reserved1,
}
use gitbook_golang.Amqp.Properties.Read.{optional, read_properties}
use gitbook_golang.Amqp.Properties.Write.{when, write_properties}
use gitbook_golang.Amqp.Strings.{shortstr}
use gitbook_golang.Amqp.Wire.{Bytes, Reader, Written, write_uint}
use gitbook_golang.Amqp.Wire.Codec.{Codec, seq, Codec-return}
use gitbook_golang.Amqp.Wire.Words.{uint}

-- Lengths and numbers within their widths. `reserved1` is never written.
abbrev pub IsTime : Time → Type 0
IsTime zero_time = Unit {0}
IsTime (unix s) = s < 2 ^ 64

pub record FitsProperties (p : Properties) : Type 0 where
  pub content_type : length p.content_type < 2 ^ 8
  pub content_encoding : length p.content_encoding < 2 ^ 8
  pub headers : IsTable p.headers
  pub delivery_mode : p.delivery_mode < 2 ^ 8
  pub priority : p.priority < 2 ^ 8
  pub correlation_id : length p.correlation_id < 2 ^ 8
  pub reply_to : length p.reply_to < 2 ^ 8
  pub expiration : length p.expiration < 2 ^ 8
  pub message_id : length p.message_id < 2 ^ 8
  pub timestamp : IsTime p.timestamp
  pub type : length p.type < 2 ^ 8
  pub user_id : length p.user_id < 2 ^ 8
  pub app_id : length p.app_id < 2 ^ 8
  pub reserved1 : p.reserved1 ≡ []

optional_codec {ℓ} :
    {A : Type ℓ} {w : Written} {p : Reader A} (present : Bool) (zero_value a : A)
    → (present ≡ true → Codec w p a)
    → (present ≡ false → zero_value ≡ a)
    → Codec (when present w) (optional present zero_value p) a
unfolding when optional
optional_codec true zero_value a h k = h refl
optional_codec false zero_value a h k = Codec-return (k refl)

empty : (s : Bytes) → ltb 0 (length s) ≡ false → [] ≡ s
empty [] h = refl
empty (x ∷ s) h = ground arith

zero_octet : (n : ℕ) → ltb 0 n ≡ false → 0 ≡ n
zero_octet n h = ground arith

no_table : (t : Table) → has_entries t ≡ false → no_entries ≡ t
unfolding has_entries
no_table no_entries h = refl
no_table (entry k v t) h = cc

unset : (t : Time) → is_set t ≡ false → zero_time ≡ t
unfolding is_set
unset zero_time h = refl
unset (unix s) h = cc

set_time :
    (t : Time) → IsTime t → is_set t ≡ true → Codec (write_uint 8 (unix_seconds t)) read_timestamp t
unfolding is_set
set_time zero_time h e = cc
set_time (unix s) h e = timestamp_codec h

module _ (p : Properties) (h : FitsProperties p) where
  -- The properties of a content header, within their widths and with the reserved one empty, are
  -- written under the mask of those that are set without an error, and reading under that mask gives
  -- them all back and leaves what is behind.
  pub properties_codec :
      Codec (write_properties (header_mask p) p) (read_properties (header_mask p)) p
  unfolding write_properties read_properties header_mask optional
  properties_codec =
      rw
        (
          has-content_type _ _ _ _ _ _ _ _ _ _ _ _ _,
          has-content_encoding _ _ _ _ _ _ _ _ _ _ _ _ _,
          has-headers _ _ _ _ _ _ _ _ _ _ _ _ _,
          has-delivery_mode _ _ _ _ _ _ _ _ _ _ _ _ _,
          has-priority _ _ _ _ _ _ _ _ _ _ _ _ _,
          has-correlation_id _ _ _ _ _ _ _ _ _ _ _ _ _,
          has-reply_to _ _ _ _ _ _ _ _ _ _ _ _ _,
          has-expiration _ _ _ _ _ _ _ _ _ _ _ _ _,
          has-message_id _ _ _ _ _ _ _ _ _ _ _ _ _,
          has-timestamp _ _ _ _ _ _ _ _ _ _ _ _ _,
          has-type _ _ _ _ _ _ _ _ _ _ _ _ _,
          has-user_id _ _ _ _ _ _ _ _ _ _ _ _ _,
          has-app_id _ _ _ _ _ _ _ _ _ _ _ _ _,
          has-reserved1 _ _ _ _ _ _ _ _ _ _ _ _ _,
        )
        (seq (optional_codec _ _ _ (λ on. shortstr h.content_type) (empty p.content_type)) _ (
          seq (optional_codec _ _ _ (λ on. shortstr h.content_encoding) (empty p.content_encoding))
            _
            (seq (optional_codec _ _ _ (λ on. table_lem h.headers) (no_table p.headers)) _ (
              seq (optional_codec _ _ _ (λ on. uint 1 h.delivery_mode) (zero_octet p.delivery_mode))
                _
                (seq (optional_codec _ _ _ (λ on. uint 1 h.priority) (zero_octet p.priority)) _ (
                  seq
                    (optional_codec _ _ _ (λ on. shortstr h.correlation_id)
                      (empty p.correlation_id))
                    _
                    (seq (optional_codec _ _ _ (λ on. shortstr h.reply_to) (empty p.reply_to)) _ (
                      seq (optional_codec _ _ _ (λ on. shortstr h.expiration) (empty p.expiration))
                        _
                        (seq
                          (optional_codec _ _ _ (λ on. shortstr h.message_id) (empty p.message_id))
                          _
                          (seq
                            (optional_codec _ _ _ (set_time p.timestamp h.timestamp)
                              (unset p.timestamp))
                            _
                            (seq (optional_codec _ _ _ (λ on. shortstr h.type) (empty p.type)) _ (
                              seq
                                (optional_codec _ _ _ (λ on. shortstr h.user_id) (empty p.user_id))
                                _
                                (seq
                                  (optional_codec _ _ _ (λ on. shortstr h.app_id) (empty p.app_id))
                                  _ (Codec-return (rw h.reserved1)))))))))))))))
