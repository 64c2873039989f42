-- ===== src/Amqp/Properties.antt =====
-- `properties` of types.go: what a content header frame carries.
pub mod Mask
pub mod Write
pub mod Read
pub mod Codecs
pub mod Ends
pub mod Stable
use gitbook_golang.Prelude.{ℕ, bit_and, Bool, [], ltb}
use gitbook_golang.Amqp.Field.{Time, zero_time, Table, no_entries}
use gitbook_golang.Amqp.Wire.{Bytes}

pub record Properties : Type 0 where
  pub content_type : Bytes
  pub content_encoding : Bytes
  pub headers : Table
  pub delivery_mode : ℕ
  pub priority : ℕ
  pub correlation_id : Bytes
  pub reply_to : Bytes
  pub expiration : Bytes
  pub message_id : Bytes
  pub timestamp : Time
  pub type : Bytes
  pub user_id : Bytes
  pub app_id : Bytes
  pub reserved1 : Bytes

-- The zero value of the struct.
abbrev pub no_properties : Properties
no_properties = record {
  content_type = [];
  content_encoding = [];
  headers = no_entries;
  delivery_mode = 0;
  priority = 0;
  correlation_id = [];
  reply_to = [];
  expiration = [];
  message_id = [];
  timestamp = zero_time;
  type = [];
  user_id = [];
  app_id = [];
  reserved1 = [];
}

-- The property flags, from bit 15 down.
abbrev pub flag_content_type : ℕ
flag_content_type = 0x8000

abbrev pub flag_content_encoding : ℕ
flag_content_encoding = 0x4000

abbrev pub flag_headers : ℕ
flag_headers = 0x2000

abbrev pub flag_delivery_mode : ℕ
flag_delivery_mode = 0x1000

abbrev pub flag_priority : ℕ
flag_priority = 0x0800

abbrev pub flag_correlation_id : ℕ
flag_correlation_id = 0x0400

abbrev pub flag_reply_to : ℕ
flag_reply_to = 0x0200

abbrev pub flag_expiration : ℕ
flag_expiration = 0x0100

abbrev pub flag_message_id : ℕ
flag_message_id = 0x0080

abbrev pub flag_timestamp : ℕ
flag_timestamp = 0x0040

abbrev pub flag_type : ℕ
flag_type = 0x0020

abbrev pub flag_user_id : ℕ
flag_user_id = 0x0010

abbrev pub flag_app_id : ℕ
flag_app_id = 0x0008

abbrev pub flag_reserved1 : ℕ
flag_reserved1 = 0x0004

-- `int(mask)&prop > 0`
unfoldable pub has_property : ℕ → ℕ → Bool
has_property mask prop = ltb 0 (bit_and mask prop)
