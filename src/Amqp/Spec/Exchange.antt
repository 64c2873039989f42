-- ===== src/Amqp/Spec/Exchange.antt =====
-- The exchange class. A struct of spec091.go, its write and its read.
pub mod Codecs
pub mod Ends
pub mod Stable
use gitbook_golang.Prelude.{ℕ, Bool}
use gitbook_golang.Amqp.Field.{Table}
use gitbook_golang.Amqp.Field.Read.{read_table}
use gitbook_golang.Amqp.Field.Write.{write_table}
use gitbook_golang.Amqp.Spec.Bits.{set_bit, has_bit}
use gitbook_golang.Amqp.Strings.{read_shortstr, write_shortstr}
use gitbook_golang.Amqp.Wire.{
  Bytes, Reader, pure, ◌>>=◌, Written, return, ◌>>◌, read_uint, write_uint,
}

pub record ExchangeDeclare : Type 0 where
  pub reserved1 : ℕ
  pub exchange : Bytes
  pub type : Bytes
  pub passive : Bool
  pub durable : Bool
  pub auto_delete : Bool
  pub internal : Bool
  pub no_wait : Bool
  pub arguments : Table

unfoldable pub write_exchange_declare : ExchangeDeclare → Written
write_exchange_declare m = do
  write_uint 2 m.reserved1
  write_shortstr m.exchange
  write_shortstr m.type
  write_uint 1 (
      set_bit m.no_wait 4 (
        set_bit m.internal 3
          (set_bit m.auto_delete 2 (set_bit m.durable 1 (set_bit m.passive 0 0)))))
  write_table m.arguments
  return

unfoldable pub read_exchange_declare : Reader ExchangeDeclare
read_exchange_declare = do
  reserved1 ← read_uint 2
  exchange ← read_shortstr
  type ← read_shortstr
  bits ← read_uint 1
  arguments ← read_table
  pure (record {
    reserved1 = reserved1;
    exchange = exchange;
    type = type;
    passive = has_bit bits 0;
    durable = has_bit bits 1;
    auto_delete = has_bit bits 2;
    internal = has_bit bits 3;
    no_wait = has_bit bits 4;
    arguments = arguments;
  })

pub record ExchangeDeclareOk : Type 0 where

unfoldable pub write_exchange_declare_ok : ExchangeDeclareOk → Written
write_exchange_declare_ok m = return

unfoldable pub read_exchange_declare_ok : Reader ExchangeDeclareOk
read_exchange_declare_ok = pure (record {})

pub record ExchangeDelete : Type 0 where
  pub reserved1 : ℕ
  pub exchange : Bytes
  pub if_unused : Bool
  pub no_wait : Bool

unfoldable pub write_exchange_delete : ExchangeDelete → Written
write_exchange_delete m = do
  write_uint 2 m.reserved1
  write_shortstr m.exchange
  write_uint 1 (set_bit m.no_wait 1 (set_bit m.if_unused 0 0))
  return

unfoldable pub read_exchange_delete : Reader ExchangeDelete
read_exchange_delete = do
  reserved1 ← read_uint 2
  exchange ← read_shortstr
  bits ← read_uint 1
  pure (record {
    reserved1 = reserved1;
    exchange = exchange;
    if_unused = has_bit bits 0;
    no_wait = has_bit bits 1;
  })

pub record ExchangeDeleteOk : Type 0 where

unfoldable pub write_exchange_delete_ok : ExchangeDeleteOk → Written
write_exchange_delete_ok m = return

unfoldable pub read_exchange_delete_ok : Reader ExchangeDeleteOk
read_exchange_delete_ok = pure (record {})

pub record ExchangeBind : Type 0 where
  pub reserved1 : ℕ
  pub destination : Bytes
  pub source : Bytes
  pub routing_key : Bytes
  pub no_wait : Bool
  pub arguments : Table

unfoldable pub write_exchange_bind : ExchangeBind → Written
write_exchange_bind m = do
  write_uint 2 m.reserved1
  write_shortstr m.destination
  write_shortstr m.source
  write_shortstr m.routing_key
  write_uint 1 (set_bit m.no_wait 0 0)
  write_table m.arguments
  return

unfoldable pub read_exchange_bind : Reader ExchangeBind
read_exchange_bind = do
  reserved1 ← read_uint 2
  destination ← read_shortstr
  source ← read_shortstr
  routing_key ← read_shortstr
  bits ← read_uint 1
  arguments ← read_table
  pure (record {
    reserved1 = reserved1;
    destination = destination;
    source = source;
    routing_key = routing_key;
    no_wait = has_bit bits 0;
    arguments = arguments;
  })

pub record ExchangeBindOk : Type 0 where

unfoldable pub write_exchange_bind_ok : ExchangeBindOk → Written
write_exchange_bind_ok m = return

unfoldable pub read_exchange_bind_ok : Reader ExchangeBindOk
read_exchange_bind_ok = pure (record {})

pub record ExchangeUnbind : Type 0 where
  pub reserved1 : ℕ
  pub destination : Bytes
  pub source : Bytes
  pub routing_key : Bytes
  pub no_wait : Bool
  pub arguments : Table

unfoldable pub write_exchange_unbind : ExchangeUnbind → Written
write_exchange_unbind m = do
  write_uint 2 m.reserved1
  write_shortstr m.destination
  write_shortstr m.source
  write_shortstr m.routing_key
  write_uint 1 (set_bit m.no_wait 0 0)
  write_table m.arguments
  return

unfoldable pub read_exchange_unbind : Reader ExchangeUnbind
read_exchange_unbind = do
  reserved1 ← read_uint 2
  destination ← read_shortstr
  source ← read_shortstr
  routing_key ← read_shortstr
  bits ← read_uint 1
  arguments ← read_table
  pure (record {
    reserved1 = reserved1;
    destination = destination;
    source = source;
    routing_key = routing_key;
    no_wait = has_bit bits 0;
    arguments = arguments;
  })

pub record ExchangeUnbindOk : Type 0 where

unfoldable pub write_exchange_unbind_ok : ExchangeUnbindOk → Written
write_exchange_unbind_ok m = return

unfoldable pub read_exchange_unbind_ok : Reader ExchangeUnbindOk
read_exchange_unbind_ok = pure (record {})
