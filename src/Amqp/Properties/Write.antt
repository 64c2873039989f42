-- ===== src/Amqp/Properties/Write.antt =====
-- The property list of a content header, as `headerFrame.write` writes it.
use gitbook_golang.Prelude.{ℕ, Bool, if◌then◌else◌}
use gitbook_golang.Amqp.Field.Write.{unix_seconds, write_table}
use gitbook_golang.Amqp.Properties.{
  Properties, flag_content_type, flag_content_encoding, flag_headers, flag_delivery_mode,
  flag_priority, flag_correlation_id, flag_reply_to, flag_expiration, flag_message_id,
  flag_timestamp, flag_type, flag_user_id, flag_app_id, has_property,
}
use gitbook_golang.Amqp.Strings.{write_shortstr}
use gitbook_golang.Amqp.Wire.{Written, return, ◌>>◌, write_uint}

unfoldable pub when : Bool → Written → Written
when present w = if present then w else return

unfoldable pub write_properties : ℕ → Properties → Written
write_properties mask p = do
  when (has_property mask flag_content_type) (write_shortstr p.content_type)
  when (has_property mask flag_content_encoding) (write_shortstr p.content_encoding)
  when (has_property mask flag_headers) (write_table p.headers)
  when (has_property mask flag_delivery_mode) (write_uint 1 p.delivery_mode)
  when (has_property mask flag_priority) (write_uint 1 p.priority)
  when (has_property mask flag_correlation_id) (write_shortstr p.correlation_id)
  when (has_property mask flag_reply_to) (write_shortstr p.reply_to)
  when (has_property mask flag_expiration) (write_shortstr p.expiration)
  when (has_property mask flag_message_id) (write_shortstr p.message_id)
  when (has_property mask flag_timestamp) (write_uint 8 (unix_seconds p.timestamp))
  when (has_property mask flag_type) (write_shortstr p.type)
  when (has_property mask flag_user_id) (write_shortstr p.user_id)
  when (has_property mask flag_app_id) (write_shortstr p.app_id)
  return
