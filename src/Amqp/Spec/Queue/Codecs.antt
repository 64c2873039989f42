-- ===== src/Amqp/Spec/Queue/Codecs.antt =====
-- The queue class. Its writes and reads together.
use gitbook_golang.Prelude.{◌^◌, ◌<◌, refl, length}
use gitbook_golang.Amqp.Field.Encodable.{IsTable}
use gitbook_golang.Amqp.Field.RoundTrip.{table_lem}
use gitbook_golang.Amqp.Spec.Bits.{one-lt, three-lt, five-lt, flag_laws}
use gitbook_golang.Amqp.Spec.Queue.{
  QueueDeclare, write_queue_declare, read_queue_declare, QueueDeclareOk, write_queue_declare_ok,
  read_queue_declare_ok, QueueBind, write_queue_bind, read_queue_bind, QueueBindOk,
  write_queue_bind_ok, read_queue_bind_ok, QueueUnbind, write_queue_unbind, read_queue_unbind,
  QueueUnbindOk, write_queue_unbind_ok, read_queue_unbind_ok, QueuePurge, write_queue_purge,
  read_queue_purge, QueuePurgeOk, write_queue_purge_ok, read_queue_purge_ok, QueueDelete,
  write_queue_delete, read_queue_delete, QueueDeleteOk, write_queue_delete_ok, read_queue_delete_ok,
}
use gitbook_golang.Amqp.Strings.{shortstr}
use gitbook_golang.Amqp.Wire.Codec.{Codec, seq, Codec-return}
use gitbook_golang.Amqp.Wire.Words.{uint}

abbrev pub FitsQueueDeclare : QueueDeclare → Type 0
FitsQueueDeclare m = (m.reserved1 < 2 ^ 16) × (length m.queue < 2 ^ 8) × IsTable m.arguments

pub queue_declare_codec :
    (m : QueueDeclare) → FitsQueueDeclare m → Codec (write_queue_declare m) read_queue_declare m
unfolding write_queue_declare read_queue_declare
queue_declare_codec m h = seq (uint 2 h.0) _ (
    seq (shortstr h.1) _ (
      seq (uint 1 (five-lt m.passive m.durable m.exclusive m.auto_delete m.no_wait)) _
        (seq (table_lem h.2) _ (Codec-return (simp flag_laws)))))

abbrev pub FitsQueueDeclareOk : QueueDeclareOk → Type 0
FitsQueueDeclareOk m =
    (length m.queue < 2 ^ 8) × (m.message_count < 2 ^ 32) × (m.consumer_count < 2 ^ 32)

pub queue_declare_ok_codec :
    (m : QueueDeclareOk)
    → FitsQueueDeclareOk m
    → Codec (write_queue_declare_ok m) read_queue_declare_ok m
unfolding write_queue_declare_ok read_queue_declare_ok
queue_declare_ok_codec m h =
    seq (shortstr h.0) _ (seq (uint 4 h.1) _ (seq (uint 4 h.2) _ (Codec-return refl)))

abbrev pub FitsQueueBind : QueueBind → Type 0
FitsQueueBind m =
    (m.reserved1 < 2 ^ 16)
    × (length m.queue < 2 ^ 8)
    × (length m.exchange < 2 ^ 8)
    × (length m.routing_key < 2 ^ 8)
    × IsTable m.arguments

pub queue_bind_codec :
    (m : QueueBind) → FitsQueueBind m → Codec (write_queue_bind m) read_queue_bind m
unfolding write_queue_bind read_queue_bind
queue_bind_codec m h = seq (uint 2 h.0) _ (
    seq (shortstr h.1) _ (
      seq (shortstr h.2) _ (
        seq (shortstr h.3) _ (
          seq (uint 1 (one-lt m.no_wait)) _
            (seq (table_lem h.4) _ (Codec-return (simp flag_laws)))))))

abbrev pub FitsQueueBindOk : QueueBindOk → Type 0
FitsQueueBindOk m = Unit {0}

pub queue_bind_ok_codec :
    (m : QueueBindOk) → FitsQueueBindOk m → Codec (write_queue_bind_ok m) read_queue_bind_ok m
unfolding write_queue_bind_ok read_queue_bind_ok
queue_bind_ok_codec m h = Codec-return refl

abbrev pub FitsQueueUnbind : QueueUnbind → Type 0
FitsQueueUnbind m =
    (m.reserved1 < 2 ^ 16)
    × (length m.queue < 2 ^ 8)
    × (length m.exchange < 2 ^ 8)
    × (length m.routing_key < 2 ^ 8)
    × IsTable m.arguments

pub queue_unbind_codec :
    (m : QueueUnbind) → FitsQueueUnbind m → Codec (write_queue_unbind m) read_queue_unbind m
unfolding write_queue_unbind read_queue_unbind
queue_unbind_codec m h = seq (uint 2 h.0) _ (
    seq (shortstr h.1) _
      (seq (shortstr h.2) _ (seq (shortstr h.3) _ (seq (table_lem h.4) _ (Codec-return refl)))))

abbrev pub FitsQueueUnbindOk : QueueUnbindOk → Type 0
FitsQueueUnbindOk m = Unit {0}

pub queue_unbind_ok_codec :
    (m : QueueUnbindOk)
    → FitsQueueUnbindOk m
    → Codec (write_queue_unbind_ok m) read_queue_unbind_ok m
unfolding write_queue_unbind_ok read_queue_unbind_ok
queue_unbind_ok_codec m h = Codec-return refl

abbrev pub FitsQueuePurge : QueuePurge → Type 0
FitsQueuePurge m = (m.reserved1 < 2 ^ 16) × (length m.queue < 2 ^ 8)

pub queue_purge_codec :
    (m : QueuePurge) → FitsQueuePurge m → Codec (write_queue_purge m) read_queue_purge m
unfolding write_queue_purge read_queue_purge
queue_purge_codec m h =
    seq (uint 2 h.0) _
      (seq (shortstr h.1) _ (seq (uint 1 (one-lt m.no_wait)) _ (Codec-return (simp flag_laws))))

abbrev pub FitsQueuePurgeOk : QueuePurgeOk → Type 0
FitsQueuePurgeOk m = m.message_count < 2 ^ 32

pub queue_purge_ok_codec :
    (m : QueuePurgeOk) → FitsQueuePurgeOk m → Codec (write_queue_purge_ok m) read_queue_purge_ok m
unfolding write_queue_purge_ok read_queue_purge_ok
queue_purge_ok_codec m h = seq (uint 4 h) _ (Codec-return refl)

abbrev pub FitsQueueDelete : QueueDelete → Type 0
FitsQueueDelete m = (m.reserved1 < 2 ^ 16) × (length m.queue < 2 ^ 8)

pub queue_delete_codec :
    (m : QueueDelete) → FitsQueueDelete m → Codec (write_queue_delete m) read_queue_delete m
unfolding write_queue_delete read_queue_delete
queue_delete_codec m h = seq (uint 2 h.0) _ (
    seq (shortstr h.1) _
      (seq (uint 1 (three-lt m.if_unused m.if_empty m.no_wait)) _ (Codec-return (simp flag_laws))))

abbrev pub FitsQueueDeleteOk : QueueDeleteOk → Type 0
FitsQueueDeleteOk m = m.message_count < 2 ^ 32

pub queue_delete_ok_codec :
    (m : QueueDeleteOk)
    → FitsQueueDeleteOk m
    → Codec (write_queue_delete_ok m) read_queue_delete_ok m
unfolding write_queue_delete_ok read_queue_delete_ok
queue_delete_ok_codec m h = seq (uint 4 h) _ (Codec-return refl)
