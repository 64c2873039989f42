-- ===== src/Amqp/Spec/Content/Codecs.antt =====
-- The basic class: the methods that carry content. Its writes and reads together.
use gitbook_golang.Prelude.{◌^◌, ◌<◌, refl, [], length}
use gitbook_golang.Amqp.Properties.{no_properties}
use gitbook_golang.Amqp.Spec.Bits.{one-lt, two-lt, flag_laws}
use gitbook_golang.Amqp.Spec.Content.{
  BasicPublish, write_basic_publish, read_basic_publish, BasicReturn, write_basic_return,
  read_basic_return, BasicDeliver, write_basic_deliver, read_basic_deliver, BasicGetOk,
  write_basic_get_ok, read_basic_get_ok,
}
use gitbook_golang.Amqp.Strings.{shortstr}
use gitbook_golang.Amqp.Wire.Codec.{Codec, seq, Codec-return}
use gitbook_golang.Amqp.Wire.Words.{uint}

abbrev pub FitsBasicPublish : BasicPublish → Type 0
FitsBasicPublish m =
    (m.reserved1 < 2 ^ 16) × (length m.exchange < 2 ^ 8) × (length m.routing_key < 2 ^ 8)

pub basic_publish_codec :
    (m : BasicPublish)
    → FitsBasicPublish m
    → Codec
        (write_basic_publish m)
        read_basic_publish
        (record m { properties = no_properties; body = [] })
unfolding write_basic_publish read_basic_publish
basic_publish_codec m h = seq (uint 2 h.0) _ (
    seq (shortstr h.1) _ (
      seq (shortstr h.2) _
        (seq (uint 1 (two-lt m.mandatory m.immediate)) _ (Codec-return (simp flag_laws)))))

abbrev pub FitsBasicReturn : BasicReturn → Type 0
FitsBasicReturn m =
    (m.reply_code < 2 ^ 16)
    × (length m.reply_text < 2 ^ 8)
    × (length m.exchange < 2 ^ 8)
    × (length m.routing_key < 2 ^ 8)

pub basic_return_codec :
    (m : BasicReturn)
    → FitsBasicReturn m
    → Codec
        (write_basic_return m)
        read_basic_return
        (record m { properties = no_properties; body = [] })
unfolding write_basic_return read_basic_return
basic_return_codec m h =
    seq (uint 2 h.0) _
      (seq (shortstr h.1) _ (seq (shortstr h.2) _ (seq (shortstr h.3) _ (Codec-return refl))))

abbrev pub FitsBasicDeliver : BasicDeliver → Type 0
FitsBasicDeliver m =
    (length m.consumer_tag < 2 ^ 8)
    × (m.delivery_tag < 2 ^ 64)
    × (length m.exchange < 2 ^ 8)
    × (length m.routing_key < 2 ^ 8)

pub basic_deliver_codec :
    (m : BasicDeliver)
    → FitsBasicDeliver m
    → Codec
        (write_basic_deliver m)
        read_basic_deliver
        (record m { properties = no_properties; body = [] })
unfolding write_basic_deliver read_basic_deliver
basic_deliver_codec m h = seq (shortstr h.0) _ (
    seq (uint 8 h.1) _ (
      seq (uint 1 (one-lt m.redelivered)) _
        (seq (shortstr h.2) _ (seq (shortstr h.3) _ (Codec-return (simp flag_laws))))))

abbrev pub FitsBasicGetOk : BasicGetOk → Type 0
FitsBasicGetOk m =
    (m.delivery_tag < 2 ^ 64)
    × (length m.exchange < 2 ^ 8)
    × (length m.routing_key < 2 ^ 8)
    × (m.message_count < 2 ^ 32)

pub basic_get_ok_codec :
    (m : BasicGetOk)
    → FitsBasicGetOk m
    → Codec
        (write_basic_get_ok m)
        read_basic_get_ok
        (record m { properties = no_properties; body = [] })
unfolding write_basic_get_ok read_basic_get_ok
basic_get_ok_codec m h = seq (uint 8 h.0) _ (
    seq (uint 1 (one-lt m.redelivered)) _ (
      seq (shortstr h.1) _
        (seq (shortstr h.2) _ (seq (uint 4 h.3) _ (Codec-return (simp flag_laws))))))
