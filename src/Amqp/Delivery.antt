-- ===== src/Amqp/Delivery.antt =====
-- delivery.go and return.go: what a consumer or a listener of the client gets.
pub mod Settle
use gitbook_golang.Prelude.{ℕ, Bool, false, Option, some, []}
use gitbook_golang.Amqp.Field.{Time, Table}
use gitbook_golang.Amqp.Frame.{channel}
use gitbook_golang.Amqp.Properties.{Properties}
use gitbook_golang.Amqp.Spec.Content.{BasicReturn, BasicDeliver, BasicGetOk}
use gitbook_golang.Amqp.Wire.{Bytes}

-- `acknowledger` is the number of the channel, or `none` for a nil interface.
pub record Delivery : Type 0 where
  pub acknowledger : Option ℕ
  pub headers : Table
  pub content_type : Bytes
  pub content_encoding : Bytes
  pub delivery_mode : ℕ
  pub priority : ℕ
  pub correlation_id : Bytes
  pub reply_to : Bytes
  pub expiration : Bytes
  pub message_id : Bytes
  pub timestamp : Time
  pub type : Bytes
  pub user_id : Bytes
  pub app_id : Bytes
  pub consumer_tag : Bytes
  pub message_count : ℕ
  pub delivery_tag : ℕ
  pub redelivered : Bool
  pub exchange : Bytes
  pub routing_key : Bytes
  pub body : Bytes

-- The properties and the body, before the `switch` on the type of the message.
unfoldable pub base_delivery : ℕ → Properties → Bytes → Delivery
base_delivery channel props content = record {
  acknowledger = some channel;
  headers = props.headers;
  content_type = props.content_type;
  content_encoding = props.content_encoding;
  delivery_mode = props.delivery_mode;
  priority = props.priority;
  correlation_id = props.correlation_id;
  reply_to = props.reply_to;
  expiration = props.expiration;
  message_id = props.message_id;
  timestamp = props.timestamp;
  type = props.type;
  user_id = props.user_id;
  app_id = props.app_id;
  consumer_tag = [];
  message_count = 0;
  delivery_tag = 0;
  redelivered = false;
  exchange = [];
  routing_key = [];
  body = content;
}

-- `newDelivery` on the two types of its `switch`.
unfoldable pub deliver_delivery : ℕ → BasicDeliver → Delivery
deliver_delivery channel m = record (base_delivery channel m.properties m.body) {
  consumer_tag = m.consumer_tag;
  delivery_tag = m.delivery_tag;
  redelivered = m.redelivered;
  exchange = m.exchange;
  routing_key = m.routing_key;
}

unfoldable pub get_ok_delivery : ℕ → BasicGetOk → Delivery
get_ok_delivery channel m = record (base_delivery channel m.properties m.body) {
  message_count = m.message_count;
  delivery_tag = m.delivery_tag;
  redelivered = m.redelivered;
  exchange = m.exchange;
  routing_key = m.routing_key;
}

pub record Return : Type 0 where
  pub reply_code : ℕ
  pub reply_text : Bytes
  pub exchange : Bytes
  pub routing_key : Bytes
  pub headers : Table
  pub content_type : Bytes
  pub content_encoding : Bytes
  pub delivery_mode : ℕ
  pub priority : ℕ
  pub correlation_id : Bytes
  pub reply_to : Bytes
  pub expiration : Bytes
  pub message_id : Bytes
  pub timestamp : Time
  pub type : Bytes
  pub user_id : Bytes
  pub app_id : Bytes
  pub body : Bytes

unfoldable pub new_return : BasicReturn → Return
new_return m =
    let props = m.properties in
    record {
      reply_code = m.reply_code;
      reply_text = m.reply_text;
      exchange = m.exchange;
      routing_key = m.routing_key;
      headers = props.headers;
      content_type = props.content_type;
      content_encoding = props.content_encoding;
      delivery_mode = props.delivery_mode;
      priority = props.priority;
      correlation_id = props.correlation_id;
      reply_to = props.reply_to;
      expiration = props.expiration;
      message_id = props.message_id;
      timestamp = props.timestamp;
      type = props.type;
      user_id = props.user_id;
      app_id = props.app_id;
      body = m.body;
    }
