-- ===== src/Amqp/Spec/Content.antt =====
-- The basic class: the methods that carry content. A struct of spec091.go, its write and its read.
pub mod Codecs
pub mod Ends
pub mod Stable
use gitbook_golang.Prelude.{ℕ, Bool, []}
use gitbook_golang.Amqp.Properties.{Properties, no_properties}
use gitbook_golang.Amqp.Spec.Bits.{set_bit, has_bit}
use gitbook_golang.Amqp.Strings.{read_shortstr, write_shortstr}
use gitbook_golang.Amqp.Wire.{
  Bytes, Reader, pure, ◌>>=◌, Written, return, ◌>>◌, read_uint, write_uint,
}

pub record BasicPublish : Type 0 where
  pub reserved1 : ℕ
  pub exchange : Bytes
  pub routing_key : Bytes
  pub mandatory : Bool
  pub immediate : Bool
  pub properties : Properties
  pub body : Bytes

unfoldable pub write_basic_publish : BasicPublish → Written
write_basic_publish m = do
  write_uint 2 m.reserved1
  write_shortstr m.exchange
  write_shortstr m.routing_key
  write_uint 1 (set_bit m.immediate 1 (set_bit m.mandatory 0 0))
  return

unfoldable pub read_basic_publish : Reader BasicPublish
read_basic_publish = do
  reserved1 ← read_uint 2
  exchange ← read_shortstr
  routing_key ← read_shortstr
  bits ← read_uint 1
  pure (record {
    reserved1 = reserved1;
    exchange = exchange;
    routing_key = routing_key;
    mandatory = has_bit bits 0;
    immediate = has_bit bits 1;
    properties = no_properties;
    body = [];
  })

pub record BasicReturn : Type 0 where
  pub reply_code : ℕ
  pub reply_text : Bytes
  pub exchange : Bytes
  pub routing_key : Bytes
  pub properties : Properties
  pub body : Bytes

unfoldable pub write_basic_return : BasicReturn → Written
write_basic_return m = do
  write_uint 2 m.reply_code
  write_shortstr m.reply_text
  write_shortstr m.exchange
  write_shortstr m.routing_key
  return

unfoldable pub read_basic_return : Reader BasicReturn
read_basic_return = do
  reply_code ← read_uint 2
  reply_text ← read_shortstr
  exchange ← read_shortstr
  routing_key ← read_shortstr
  pure (record {
    reply_code = reply_code;
    reply_text = reply_text;
    exchange = exchange;
    routing_key = routing_key;
    properties = no_properties;
    body = [];
  })

pub record BasicDeliver : Type 0 where
  pub consumer_tag : Bytes
  pub delivery_tag : ℕ
  pub redelivered : Bool
  pub exchange : Bytes
  pub routing_key : Bytes
  pub properties : Properties
  pub body : Bytes

unfoldable pub write_basic_deliver : BasicDeliver → Written
write_basic_deliver m = do
  write_shortstr m.consumer_tag
  write_uint 8 m.delivery_tag
  write_uint 1 (set_bit m.redelivered 0 0)
  write_shortstr m.exchange
  write_shortstr m.routing_key
  return

unfoldable pub read_basic_deliver : Reader BasicDeliver
read_basic_deliver = do
  consumer_tag ← read_shortstr
  delivery_tag ← read_uint 8
  bits ← read_uint 1
  exchange ← read_shortstr
  routing_key ← read_shortstr
  pure (record {
    consumer_tag = consumer_tag;
    delivery_tag = delivery_tag;
    redelivered = has_bit bits 0;
    exchange = exchange;
    routing_key = routing_key;
    properties = no_properties;
    body = [];
  })

pub record BasicGetOk : Type 0 where
  pub delivery_tag : ℕ
  pub redelivered : Bool
  pub exchange : Bytes
  pub routing_key : Bytes
  pub message_count : ℕ
  pub properties : Properties
  pub body : Bytes

unfoldable pub write_basic_get_ok : BasicGetOk → Written
write_basic_get_ok m = do
  write_uint 8 m.delivery_tag
  write_uint 1 (set_bit m.redelivered 0 0)
  write_shortstr m.exchange
  write_shortstr m.routing_key
  write_uint 4 m.message_count
  return

unfoldable pub read_basic_get_ok : Reader BasicGetOk
read_basic_get_ok = do
  delivery_tag ← read_uint 8
  bits ← read_uint 1
  exchange ← read_shortstr
  routing_key ← read_shortstr
  message_count ← read_uint 4
  pure (record {
    delivery_tag = delivery_tag;
    redelivered = has_bit bits 0;
    exchange = exchange;
    routing_key = routing_key;
    message_count = message_count;
    properties = no_properties;
    body = [];
  })
