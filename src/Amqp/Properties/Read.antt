-- ===== src/Amqp/Properties/Read.antt =====
-- The property list of a content header, as `parseHeaderFrame` reads it.
use gitbook_golang.Prelude.{ℕ, Bool, [], if◌then◌else◌}
use gitbook_golang.Amqp.Field.{zero_time, no_entries}
use gitbook_golang.Amqp.Field.Read.{read_timestamp, read_table}
use gitbook_golang.Amqp.Properties.{
  Properties, flag_content_type, flag_content_encoding, flag_headers, flag_delivery_mode,
  flag_priority, flag_correlation_id, flag_reply_to, flag_expiration, flag_message_id,
  flag_timestamp, flag_type, flag_user_id, flag_app_id, flag_reserved1, has_property,
}
use gitbook_golang.Amqp.Strings.{read_shortstr}
use gitbook_golang.Amqp.Wire.{Reader, pure, ◌>>=◌, read_uint}

-- A property that the flags do not name keeps its zero value.
unfoldable pub optional {ℓ} : {A : Type ℓ} → Bool → A → Reader A → Reader A
optional present zero_value p = if present then p else pure zero_value

unfoldable pub read_properties : ℕ → Reader Properties
read_properties flags = do
  content_type ← optional (has_property flags flag_content_type) [] read_shortstr
  content_encoding ← optional (has_property flags flag_content_encoding) [] read_shortstr
  headers ← optional (has_property flags flag_headers) no_entries read_table
  delivery_mode ← optional (has_property flags flag_delivery_mode) 0 (read_uint 1)
  priority ← optional (has_property flags flag_priority) 0 (read_uint 1)
  correlation_id ← optional (has_property flags flag_correlation_id) [] read_shortstr
  reply_to ← optional (has_property flags flag_reply_to) [] read_shortstr
  expiration ← optional (has_property flags flag_expiration) [] read_shortstr
  message_id ← optional (has_property flags flag_message_id) [] read_shortstr
  timestamp ← optional (has_property flags flag_timestamp) zero_time read_timestamp
  type ← optional (has_property flags flag_type) [] read_shortstr
  user_id ← optional (has_property flags flag_user_id) [] read_shortstr
  app_id ← optional (has_property flags flag_app_id) [] read_shortstr
  reserved1 ← optional (has_property flags flag_reserved1) [] read_shortstr
  pure (record {
    content_type = content_type;
    content_encoding = content_encoding;
    headers = headers;
    delivery_mode = delivery_mode;
    priority = priority;
    correlation_id = correlation_id;
    reply_to = reply_to;
    expiration = expiration;
    message_id = message_id;
    timestamp = timestamp;
    type = type;
    user_id = user_id;
    app_id = app_id;
    reserved1 = reserved1;
  })
