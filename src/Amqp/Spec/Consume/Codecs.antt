-- ===== src/Amqp/Spec/Consume/Codecs.antt =====
-- The basic class: prefetching, consumers and polling. Its writes and reads together.
use gitbook_golang.Prelude.{◌^◌, ◌<◌, refl, length}
use gitbook_golang.Amqp.Field.Encodable.{IsTable}
use gitbook_golang.Amqp.Field.RoundTrip.{table_lem}
use gitbook_golang.Amqp.Spec.Bits.{one-lt, four-lt, flag_laws}
use gitbook_golang.Amqp.Spec.Consume.{
  BasicQos, write_basic_qos, read_basic_qos, BasicQosOk, write_basic_qos_ok, read_basic_qos_ok,
  BasicConsume, write_basic_consume, read_basic_consume, BasicConsumeOk, write_basic_consume_ok,
  read_basic_consume_ok, BasicCancel, write_basic_cancel, read_basic_cancel, BasicCancelOk,
  write_basic_cancel_ok, read_basic_cancel_ok, BasicGet, write_basic_get, read_basic_get,
  BasicGetEmpty, write_basic_get_empty, read_basic_get_empty,
}
use gitbook_golang.Amqp.Strings.{shortstr}
use gitbook_golang.Amqp.Wire.Codec.{Codec, seq, Codec-return}
use gitbook_golang.Amqp.Wire.Words.{uint}

abbrev pub FitsBasicQos : BasicQos → Type 0
FitsBasicQos m = (m.prefetch_size < 2 ^ 32) × (m.prefetch_count < 2 ^ 16)

pub basic_qos_codec : (m : BasicQos) → FitsBasicQos m → Codec (write_basic_qos m) read_basic_qos m
unfolding write_basic_qos read_basic_qos
basic_qos_codec m h =
    seq (uint 4 h.0) _
      (seq (uint 2 h.1) _ (seq (uint 1 (one-lt m.global)) _ (Codec-return (simp flag_laws))))

abbrev pub FitsBasicQosOk : BasicQosOk → Type 0
FitsBasicQosOk m = Unit {0}

pub basic_qos_ok_codec :
    (m : BasicQosOk) → FitsBasicQosOk m → Codec (write_basic_qos_ok m) read_basic_qos_ok m
unfolding write_basic_qos_ok read_basic_qos_ok
basic_qos_ok_codec m h = Codec-return refl

abbrev pub FitsBasicConsume : BasicConsume → Type 0
FitsBasicConsume m =
    (m.reserved1 < 2 ^ 16)
    × (length m.queue < 2 ^ 8)
    × (length m.consumer_tag < 2 ^ 8)
    × IsTable m.arguments

pub basic_consume_codec :
    (m : BasicConsume) → FitsBasicConsume m → Codec (write_basic_consume m) read_basic_consume m
unfolding write_basic_consume read_basic_consume
basic_consume_codec m h = seq (uint 2 h.0) _ (
    seq (shortstr h.1) _ (
      seq (shortstr h.2) _ (
        seq (uint 1 (four-lt m.no_local m.no_ack m.exclusive m.no_wait)) _
          (seq (table_lem h.3) _ (Codec-return (simp flag_laws))))))

abbrev pub FitsBasicConsumeOk : BasicConsumeOk → Type 0
FitsBasicConsumeOk m = length m.consumer_tag < 2 ^ 8

pub basic_consume_ok_codec :
    (m : BasicConsumeOk)
    → FitsBasicConsumeOk m
    → Codec (write_basic_consume_ok m) read_basic_consume_ok m
unfolding write_basic_consume_ok read_basic_consume_ok
basic_consume_ok_codec m h = seq (shortstr h) _ (Codec-return refl)

abbrev pub FitsBasicCancel : BasicCancel → Type 0
FitsBasicCancel m = length m.consumer_tag < 2 ^ 8

pub basic_cancel_codec :
    (m : BasicCancel) → FitsBasicCancel m → Codec (write_basic_cancel m) read_basic_cancel m
unfolding write_basic_cancel read_basic_cancel
basic_cancel_codec m h =
    seq (shortstr h) _ (seq (uint 1 (one-lt m.no_wait)) _ (Codec-return (simp flag_laws)))

abbrev pub FitsBasicCancelOk : BasicCancelOk → Type 0
FitsBasicCancelOk m = length m.consumer_tag < 2 ^ 8

pub basic_cancel_ok_codec :
    (m : BasicCancelOk)
    → FitsBasicCancelOk m
    → Codec (write_basic_cancel_ok m) read_basic_cancel_ok m
unfolding write_basic_cancel_ok read_basic_cancel_ok
basic_cancel_ok_codec m h = seq (shortstr h) _ (Codec-return refl)

abbrev pub FitsBasicGet : BasicGet → Type 0
FitsBasicGet m = (m.reserved1 < 2 ^ 16) × (length m.queue < 2 ^ 8)

pub basic_get_codec : (m : BasicGet) → FitsBasicGet m → Codec (write_basic_get m) read_basic_get m
unfolding write_basic_get read_basic_get
basic_get_codec m h =
    seq (uint 2 h.0) _
      (seq (shortstr h.1) _ (seq (uint 1 (one-lt m.no_ack)) _ (Codec-return (simp flag_laws))))

abbrev pub FitsBasicGetEmpty : BasicGetEmpty → Type 0
FitsBasicGetEmpty m = length m.reserved1 < 2 ^ 8

pub basic_get_empty_codec :
    (m : BasicGetEmpty)
    → FitsBasicGetEmpty m
    → Codec (write_basic_get_empty m) read_basic_get_empty m
unfolding write_basic_get_empty read_basic_get_empty
basic_get_empty_codec m h = seq (shortstr h) _ (Codec-return refl)
