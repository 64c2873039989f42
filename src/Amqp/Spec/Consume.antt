-- ===== src/Amqp/Spec/Consume.antt =====
-- The basic class: prefetching, consumers and polling. A struct of spec091.go, its write and its read.
pub mod Codecs
pub mod Ends
pub mod Stable
use gitbook_golang.Prelude.{ℕ, Bool}
use gitbook_golang.Amqp.Field.{Table}
use gitbook_golang.Amqp.Field.Read.{read_table}
use gitbook_golang.Amqp.Field.Write.{write_table}
use gitbook_golang.Amqp.Spec.Bits.{set_bit, has_bit}
use gitbook_golang.Amqp.Strings.{read_shortstr, write_shortstr}
use gitbook_golang.Amqp.Wire.{
  Bytes, Reader, pure, ◌>>=◌, Written, return, ◌>>◌, read_uint, write_uint,
}

pub record BasicQos : Type 0 where
  pub prefetch_size : ℕ
  pub prefetch_count : ℕ
  pub global : Bool

unfoldable pub write_basic_qos : BasicQos → Written
write_basic_qos m = do
  write_uint 4 m.prefetch_size
  write_uint 2 m.prefetch_count
  write_uint 1 (set_bit m.global 0 0)
  return

unfoldable pub read_basic_qos : Reader BasicQos
read_basic_qos = do
  prefetch_size ← read_uint 4
  prefetch_count ← read_uint 2
  bits ← read_uint 1
  pure (record {
    prefetch_size = prefetch_size;
    prefetch_count = prefetch_count;
    global = has_bit bits 0;
  })

pub record BasicQosOk : Type 0 where

unfoldable pub write_basic_qos_ok : BasicQosOk → Written
write_basic_qos_ok m = return

unfoldable pub read_basic_qos_ok : Reader BasicQosOk
read_basic_qos_ok = pure (record {})

pub record BasicConsume : Type 0 where
  pub reserved1 : ℕ
  pub queue : Bytes
  pub consumer_tag : Bytes
  pub no_local : Bool
  pub no_ack : Bool
  pub exclusive : Bool
  pub no_wait : Bool
  pub arguments : Table

unfoldable pub write_basic_consume : BasicConsume → Written
write_basic_consume m = do
  write_uint 2 m.reserved1
  write_shortstr m.queue
  write_shortstr m.consumer_tag
  write_uint 1
      (set_bit m.no_wait 3 (set_bit m.exclusive 2 (set_bit m.no_ack 1 (set_bit m.no_local 0 0))))
  write_table m.arguments
  return

unfoldable pub read_basic_consume : Reader BasicConsume
read_basic_consume = do
  reserved1 ← read_uint 2
  queue ← read_shortstr
  consumer_tag ← read_shortstr
  bits ← read_uint 1
  arguments ← read_table
  pure (record {
    reserved1 = reserved1;
    queue = queue;
    consumer_tag = consumer_tag;
    no_local = has_bit bits 0;
    no_ack = has_bit bits 1;
    exclusive = has_bit bits 2;
    no_wait = has_bit bits 3;
    arguments = arguments;
  })

pub record BasicConsumeOk : Type 0 where
  pub consumer_tag : Bytes

unfoldable pub write_basic_consume_ok : BasicConsumeOk → Written
write_basic_consume_ok m = do write_shortstr m.consumer_tag; return

unfoldable pub read_basic_consume_ok : Reader BasicConsumeOk
read_basic_consume_ok = do
  consumer_tag ← read_shortstr
  pure (record { consumer_tag = consumer_tag })

pub record BasicCancel : Type 0 where
  pub consumer_tag : Bytes
  pub no_wait : Bool

unfoldable pub write_basic_cancel : BasicCancel → Written
write_basic_cancel m = do
  write_shortstr m.consumer_tag
  write_uint 1 (set_bit m.no_wait 0 0)
  return

unfoldable pub read_basic_cancel : Reader BasicCancel
read_basic_cancel = do
  consumer_tag ← read_shortstr
  bits ← read_uint 1
  pure (record { consumer_tag = consumer_tag; no_wait = has_bit bits 0 })

pub record BasicCancelOk : Type 0 where
  pub consumer_tag : Bytes

unfoldable pub write_basic_cancel_ok : BasicCancelOk → Written
write_basic_cancel_ok m = do write_shortstr m.consumer_tag; return

unfoldable pub read_basic_cancel_ok : Reader BasicCancelOk
read_basic_cancel_ok = do
  consumer_tag ← read_shortstr
  pure (record { consumer_tag = consumer_tag })

pub record BasicGet : Type 0 where
  pub reserved1 : ℕ
  pub queue : Bytes
  pub no_ack : Bool

unfoldable pub write_basic_get : BasicGet → Written
write_basic_get m = do
  write_uint 2 m.reserved1
  write_shortstr m.queue
  write_uint 1 (set_bit m.no_ack 0 0)
  return

unfoldable pub read_basic_get : Reader BasicGet
read_basic_get = do
  reserved1 ← read_uint 2
  queue ← read_shortstr
  bits ← read_uint 1
  pure (record { reserved1 = reserved1; queue = queue; no_ack = has_bit bits 0 })

pub record BasicGetEmpty : Type 0 where
  pub reserved1 : Bytes

unfoldable pub write_basic_get_empty : BasicGetEmpty → Written
write_basic_get_empty m = do write_shortstr m.reserved1; return

unfoldable pub read_basic_get_empty : Reader BasicGetEmpty
read_basic_get_empty = do reserved1 ← read_shortstr; pure (record { reserved1 = reserved1 })
