-- ===== src/Amqp/Spec/Control.antt =====
-- The rest of the connection class, and the channel class. A struct of spec091.go, its write and its read.
pub mod Codecs
pub mod Ends
pub mod Stable
use gitbook_golang.Prelude.{ℕ, Bool}
use gitbook_golang.Amqp.Spec.Bits.{set_bit, has_bit}
use gitbook_golang.Amqp.Strings.{read_shortstr, read_longstr, write_shortstr, write_longstr}
use gitbook_golang.Amqp.Wire.{
  Bytes, Reader, pure, ◌>>=◌, Written, return, ◌>>◌, read_uint, write_uint,
}

pub record ConnectionClose : Type 0 where
  pub reply_code : ℕ
  pub reply_text : Bytes
  pub class_id : ℕ
  pub method_id : ℕ

unfoldable pub write_connection_close : ConnectionClose → Written
write_connection_close m = do
  write_uint 2 m.reply_code
  write_shortstr m.reply_text
  write_uint 2 m.class_id
  write_uint 2 m.method_id
  return

unfoldable pub read_connection_close : Reader ConnectionClose
read_connection_close = do
  reply_code ← read_uint 2
  reply_text ← read_shortstr
  class_id ← read_uint 2
  method_id ← read_uint 2
  pure (record {
    reply_code = reply_code;
    reply_text = reply_text;
    class_id = class_id;
    method_id = method_id;
  })

pub record ConnectionCloseOk : Type 0 where

unfoldable pub write_connection_close_ok : ConnectionCloseOk → Written
write_connection_close_ok m = return

unfoldable pub read_connection_close_ok : Reader ConnectionCloseOk
read_connection_close_ok = pure (record {})

pub record ConnectionBlocked : Type 0 where
  pub reason : Bytes

unfoldable pub write_connection_blocked : ConnectionBlocked → Written
write_connection_blocked m = do write_shortstr m.reason; return

unfoldable pub read_connection_blocked : Reader ConnectionBlocked
read_connection_blocked = do reason ← read_shortstr; pure (record { reason = reason })

pub record ConnectionUnblocked : Type 0 where

unfoldable pub write_connection_unblocked : ConnectionUnblocked → Written
write_connection_unblocked m = return

unfoldable pub read_connection_unblocked : Reader ConnectionUnblocked
read_connection_unblocked = pure (record {})

pub record ChannelOpen : Type 0 where
  pub reserved1 : Bytes

unfoldable pub write_channel_open : ChannelOpen → Written
write_channel_open m = do write_shortstr m.reserved1; return

unfoldable pub read_channel_open : Reader ChannelOpen
read_channel_open = do reserved1 ← read_shortstr; pure (record { reserved1 = reserved1 })

pub record ChannelOpenOk : Type 0 where
  pub reserved1 : Bytes

unfoldable pub write_channel_open_ok : ChannelOpenOk → Written
write_channel_open_ok m = do write_longstr m.reserved1; return

unfoldable pub read_channel_open_ok : Reader ChannelOpenOk
read_channel_open_ok = do reserved1 ← read_longstr; pure (record { reserved1 = reserved1 })

pub record ChannelFlow : Type 0 where
  pub active : Bool

unfoldable pub write_channel_flow : ChannelFlow → Written
write_channel_flow m = do write_uint 1 (set_bit m.active 0 0); return

unfoldable pub read_channel_flow : Reader ChannelFlow
read_channel_flow = do bits ← read_uint 1; pure (record { active = has_bit bits 0 })

pub record ChannelFlowOk : Type 0 where
  pub active : Bool

unfoldable pub write_channel_flow_ok : ChannelFlowOk → Written
write_channel_flow_ok m = do write_uint 1 (set_bit m.active 0 0); return

unfoldable pub read_channel_flow_ok : Reader ChannelFlowOk
read_channel_flow_ok = do bits ← read_uint 1; pure (record { active = has_bit bits 0 })

pub record ChannelClose : Type 0 where
  pub reply_code : ℕ
  pub reply_text : Bytes
  pub class_id : ℕ
  pub method_id : ℕ

unfoldable pub write_channel_close : ChannelClose → Written
write_channel_close m = do
  write_uint 2 m.reply_code
  write_shortstr m.reply_text
  write_uint 2 m.class_id
  write_uint 2 m.method_id
  return

unfoldable pub read_channel_close : Reader ChannelClose
read_channel_close = do
  reply_code ← read_uint 2
  reply_text ← read_shortstr
  class_id ← read_uint 2
  method_id ← read_uint 2
  pure (record {
    reply_code = reply_code;
    reply_text = reply_text;
    class_id = class_id;
    method_id = method_id;
  })

pub record ChannelCloseOk : Type 0 where

unfoldable pub write_channel_close_ok : ChannelCloseOk → Written
write_channel_close_ok m = return

unfoldable pub read_channel_close_ok : Reader ChannelCloseOk
read_channel_close_ok = pure (record {})
