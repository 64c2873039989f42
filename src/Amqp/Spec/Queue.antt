-- ===== src/Amqp/Spec/Queue.antt =====
-- The queue class. A struct of spec091.go, its write and its read.
pub mod Codecs
pub mod Ends
pub mod Stable
use gitbook_golang.Prelude.{ℕ, Bool}
use gitbook_golang.Amqp.Field.{Table}
use gitbook_golang.Amqp.Field.Read.{read_table}
use gitbook_golang.Amqp.Field.Write.{write_table}
use gitbook_golang.Amqp.Spec.Bits.{set_bit, has_bit}
use gitbook_golang.Amqp.Strings.{read_shortstr, write_shortstr}
use gitbook_golang.Amqp.Wire.{
  Bytes, Reader, pure, ◌>>=◌, Written, return, ◌>>◌, read_uint, write_uint,
}

pub record QueueDeclare : Type 0 where
  pub reserved1 : ℕ
  pub queue : Bytes
  pub passive : Bool
  pub durable : Bool
  pub exclusive : Bool
  pub auto_delete : Bool
  pub no_wait : Bool
  pub arguments : Table

unfoldable pub write_queue_declare : QueueDeclare → Written
write_queue_declare m = do
  write_uint 2 m.reserved1
  write_shortstr m.queue
  write_uint 1 (
      set_bit m.no_wait 4 (
        set_bit m.auto_delete 3
          (set_bit m.exclusive 2 (set_bit m.durable 1 (set_bit m.passive 0 0)))))
  write_table m.arguments
  return

unfoldable pub read_queue_declare : Reader QueueDeclare
read_queue_declare = do
  reserved1 ← read_uint 2
  queue ← read_shortstr
  bits ← read_uint 1
  arguments ← read_table
  pure (record {
    reserved1 = reserved1;
    queue = queue;
    passive = has_bit bits 0;
    durable = has_bit bits 1;
    exclusive = has_bit bits 2;
    auto_delete = has_bit bits 3;
    no_wait = has_bit bits 4;
    arguments = arguments;
  })

pub record QueueDeclareOk : Type 0 where
  pub queue : Bytes
  pub message_count : ℕ
  pub consumer_count : ℕ

unfoldable pub write_queue_declare_ok : QueueDeclareOk → Written
write_queue_declare_ok m = do
  write_shortstr m.queue
  write_uint 4 m.message_count
  write_uint 4 m.consumer_count
  return

unfoldable pub read_queue_declare_ok : Reader QueueDeclareOk
read_queue_declare_ok = do
  queue ← read_shortstr
  message_count ← read_uint 4
  consumer_count ← read_uint 4
  pure (record { queue = queue; message_count = message_count; consumer_count = consumer_count })

pub record QueueBind : Type 0 where
  pub reserved1 : ℕ
  pub queue : Bytes
  pub exchange : Bytes
  pub routing_key : Bytes
  pub no_wait : Bool
  pub arguments : Table

unfoldable pub write_queue_bind : QueueBind → Written
write_queue_bind m = do
  write_uint 2 m.reserved1
  write_shortstr m.queue
  write_shortstr m.exchange
  write_shortstr m.routing_key
  write_uint 1 (set_bit m.no_wait 0 0)
  write_table m.arguments
  return

unfoldable pub read_queue_bind : Reader QueueBind
read_queue_bind = do
  reserved1 ← read_uint 2
  queue ← read_shortstr
  exchange ← read_shortstr
  routing_key ← read_shortstr
  bits ← read_uint 1
  arguments ← read_table
  pure (record {
    reserved1 = reserved1;
    queue = queue;
    exchange = exchange;
    routing_key = routing_key;
    no_wait = has_bit bits 0;
    arguments = arguments;
  })

pub record QueueBindOk : Type 0 where

unfoldable pub write_queue_bind_ok : QueueBindOk → Written
write_queue_bind_ok m = return

unfoldable pub read_queue_bind_ok : Reader QueueBindOk
read_queue_bind_ok = pure (record {})

pub record QueueUnbind : Type 0 where
  pub reserved1 : ℕ
  pub queue : Bytes
  pub exchange : Bytes
  pub routing_key : Bytes
  pub arguments : Table

unfoldable pub write_queue_unbind : QueueUnbind → Written
write_queue_unbind m = do
  write_uint 2 m.reserved1
  write_shortstr m.queue
  write_shortstr m.exchange
  write_shortstr m.routing_key
  write_table m.arguments
  return

unfoldable pub read_queue_unbind : Reader QueueUnbind
read_queue_unbind = do
  reserved1 ← read_uint 2
  queue ← read_shortstr
  exchange ← read_shortstr
  routing_key ← read_shortstr
  arguments ← read_table
  pure (record {
    reserved1 = reserved1;
    queue = queue;
    exchange = exchange;
    routing_key = routing_key;
    arguments = arguments;
  })

pub record QueueUnbindOk : Type 0 where

unfoldable pub write_queue_unbind_ok : QueueUnbindOk → Written
write_queue_unbind_ok m = return

unfoldable pub read_queue_unbind_ok : Reader QueueUnbindOk
read_queue_unbind_ok = pure (record {})

pub record QueuePurge : Type 0 where
  pub reserved1 : ℕ
  pub queue : Bytes
  pub no_wait : Bool

unfoldable pub write_queue_purge : QueuePurge → Written
write_queue_purge m = do
  write_uint 2 m.reserved1
  write_shortstr m.queue
  write_uint 1 (set_bit m.no_wait 0 0)
  return

unfoldable pub read_queue_purge : Reader QueuePurge
read_queue_purge = do
  reserved1 ← read_uint 2
  queue ← read_shortstr
  bits ← read_uint 1
  pure (record { reserved1 = reserved1; queue = queue; no_wait = has_bit bits 0 })

pub record QueuePurgeOk : Type 0 where
  pub message_count : ℕ

unfoldable pub write_queue_purge_ok : QueuePurgeOk → Written
write_queue_purge_ok m = do write_uint 4 m.message_count; return

unfoldable pub read_queue_purge_ok : Reader QueuePurgeOk
read_queue_purge_ok = do
  message_count ← read_uint 4
  pure (record { message_count = message_count })

pub record QueueDelete : Type 0 where
  pub reserved1 : ℕ
  pub queue : Bytes
  pub if_unused : Bool
  pub if_empty : Bool
  pub no_wait : Bool

unfoldable pub write_queue_delete : QueueDelete → Written
write_queue_delete m = do
  write_uint 2 m.reserved1
  write_shortstr m.queue
  write_uint 1 (set_bit m.no_wait 2 (set_bit m.if_empty 1 (set_bit m.if_unused 0 0)))
  return

unfoldable pub read_queue_delete : Reader QueueDelete
read_queue_delete = do
  reserved1 ← read_uint 2
  queue ← read_shortstr
  bits ← read_uint 1
  pure (record {
    reserved1 = reserved1;
    queue = queue;
    if_unused = has_bit bits 0;
    if_empty = has_bit bits 1;
    no_wait = has_bit bits 2;
  })

pub record QueueDeleteOk : Type 0 where
  pub message_count : ℕ

unfoldable pub write_queue_delete_ok : QueueDeleteOk → Written
write_queue_delete_ok m = do write_uint 4 m.message_count; return

unfoldable pub read_queue_delete_ok : Reader QueueDeleteOk
read_queue_delete_ok = do
  message_count ← read_uint 4
  pure (record { message_count = message_count })
