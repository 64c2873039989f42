-- ===== src/Amqp/Spec/Exchange/Codecs.antt =====
-- The exchange class. Its writes and reads together.
use gitbook_golang.Prelude.{◌^◌, ◌<◌, refl, length}
use gitbook_golang.Amqp.Field.Encodable.{IsTable}
use gitbook_golang.Amqp.Field.RoundTrip.{table_lem}
use gitbook_golang.Amqp.Spec.Bits.{one-lt, two-lt, five-lt, flag_laws}
use gitbook_golang.Amqp.Spec.Exchange.{
  ExchangeDeclare, write_exchange_declare, read_exchange_declare, ExchangeDeclareOk,
  write_exchange_declare_ok, read_exchange_declare_ok, ExchangeDelete, write_exchange_delete,
  read_exchange_delete, ExchangeDeleteOk, write_exchange_delete_ok, read_exchange_delete_ok,
  ExchangeBind, write_exchange_bind, read_exchange_bind, ExchangeBindOk, write_exchange_bind_ok,
  read_exchange_bind_ok, ExchangeUnbind, write_exchange_unbind, read_exchange_unbind,
  ExchangeUnbindOk, write_exchange_unbind_ok, read_exchange_unbind_ok,
}
use gitbook_golang.Amqp.Strings.{shortstr}
use gitbook_golang.Amqp.Wire.Codec.{Codec, seq, Codec-return}
use gitbook_golang.Amqp.Wire.Words.{uint}

abbrev pub FitsExchangeDeclare : ExchangeDeclare → Type 0
FitsExchangeDeclare m =
    (m.reserved1 < 2 ^ 16)
    × (length m.exchange < 2 ^ 8)
    × (length m.type < 2 ^ 8)
    × IsTable m.arguments

pub exchange_declare_codec :
    (m : ExchangeDeclare)
    → FitsExchangeDeclare m
    → Codec (write_exchange_declare m) read_exchange_declare m
unfolding write_exchange_declare read_exchange_declare
exchange_declare_codec m h = seq (uint 2 h.0) _ (
    seq (shortstr h.1) _ (
      seq (shortstr h.2) _ (
        seq (uint 1 (five-lt m.passive m.durable m.auto_delete m.internal m.no_wait)) _
          (seq (table_lem h.3) _ (Codec-return (simp flag_laws))))))

abbrev pub FitsExchangeDeclareOk : ExchangeDeclareOk → Type 0
FitsExchangeDeclareOk m = Unit {0}

pub exchange_declare_ok_codec :
    (m : ExchangeDeclareOk)
    → FitsExchangeDeclareOk m
    → Codec (write_exchange_declare_ok m) read_exchange_declare_ok m
unfolding write_exchange_declare_ok read_exchange_declare_ok
exchange_declare_ok_codec m h = Codec-return refl

abbrev pub FitsExchangeDelete : ExchangeDelete → Type 0
FitsExchangeDelete m = (m.reserved1 < 2 ^ 16) × (length m.exchange < 2 ^ 8)

pub exchange_delete_codec :
    (m : ExchangeDelete)
    → FitsExchangeDelete m
    → Codec (write_exchange_delete m) read_exchange_delete m
unfolding write_exchange_delete read_exchange_delete
exchange_delete_codec m h = seq (uint 2 h.0) _ (
    seq (shortstr h.1) _
      (seq (uint 1 (two-lt m.if_unused m.no_wait)) _ (Codec-return (simp flag_laws))))

abbrev pub FitsExchangeDeleteOk : ExchangeDeleteOk → Type 0
FitsExchangeDeleteOk m = Unit {0}

pub exchange_delete_ok_codec :
    (m : ExchangeDeleteOk)
    → FitsExchangeDeleteOk m
    → Codec (write_exchange_delete_ok m) read_exchange_delete_ok m
unfolding write_exchange_delete_ok read_exchange_delete_ok
exchange_delete_ok_codec m h = Codec-return refl

abbrev pub FitsExchangeBind : ExchangeBind → Type 0
FitsExchangeBind m =
    (m.reserved1 < 2 ^ 16)
    × (length m.destination < 2 ^ 8)
    × (length m.source < 2 ^ 8)
    × (length m.routing_key < 2 ^ 8)
    × IsTable m.arguments

pub exchange_bind_codec :
    (m : ExchangeBind) → FitsExchangeBind m → Codec (write_exchange_bind m) read_exchange_bind m
unfolding write_exchange_bind read_exchange_bind
exchange_bind_codec m h = seq (uint 2 h.0) _ (
    seq (shortstr h.1) _ (
      seq (shortstr h.2) _ (
        seq (shortstr h.3) _ (
          seq (uint 1 (one-lt m.no_wait)) _
            (seq (table_lem h.4) _ (Codec-return (simp flag_laws)))))))

abbrev pub FitsExchangeBindOk : ExchangeBindOk → Type 0
FitsExchangeBindOk m = Unit {0}

pub exchange_bind_ok_codec :
    (m : ExchangeBindOk)
    → FitsExchangeBindOk m
    → Codec (write_exchange_bind_ok m) read_exchange_bind_ok m
unfolding write_exchange_bind_ok read_exchange_bind_ok
exchange_bind_ok_codec m h = Codec-return refl

abbrev pub FitsExchangeUnbind : ExchangeUnbind → Type 0
FitsExchangeUnbind m =
    (m.reserved1 < 2 ^ 16)
    × (length m.destination < 2 ^ 8)
    × (length m.source < 2 ^ 8)
    × (length m.routing_key < 2 ^ 8)
    × IsTable m.arguments

pub exchange_unbind_codec :
    (m : ExchangeUnbind)
    → FitsExchangeUnbind m
    → Codec (write_exchange_unbind m) read_exchange_unbind m
unfolding write_exchange_unbind read_exchange_unbind
exchange_unbind_codec m h = seq (uint 2 h.0) _ (
    seq (shortstr h.1) _ (
      seq (shortstr h.2) _ (
        seq (shortstr h.3) _ (
          seq (uint 1 (one-lt m.no_wait)) _
            (seq (table_lem h.4) _ (Codec-return (simp flag_laws)))))))

abbrev pub FitsExchangeUnbindOk : ExchangeUnbindOk → Type 0
FitsExchangeUnbindOk m = Unit {0}

pub exchange_unbind_ok_codec :
    (m : ExchangeUnbindOk)
    → FitsExchangeUnbindOk m
    → Codec (write_exchange_unbind_ok m) read_exchange_unbind_ok m
unfolding write_exchange_unbind_ok read_exchange_unbind_ok
exchange_unbind_ok_codec m h = Codec-return refl
