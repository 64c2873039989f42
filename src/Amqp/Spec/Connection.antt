-- ===== src/Amqp/Spec/Connection.antt =====
-- The connection class: start to open. A struct of spec091.go, its write and its read.
pub mod Codecs
pub mod Ends
pub mod Stable
use gitbook_golang.Prelude.{ℕ, Bool}
use gitbook_golang.Amqp.Field.{Table}
use gitbook_golang.Amqp.Field.Read.{read_table}
use gitbook_golang.Amqp.Field.Write.{write_table}
use gitbook_golang.Amqp.Spec.Bits.{set_bit, has_bit}
use gitbook_golang.Amqp.Strings.{read_shortstr, read_longstr, write_shortstr, write_longstr}
use gitbook_golang.Amqp.Wire.{
  Bytes, Reader, pure, ◌>>=◌, Written, return, ◌>>◌, read_uint, write_uint,
}

pub record ConnectionStart : Type 0 where
  pub version_major : ℕ
  pub version_minor : ℕ
  pub server_properties : Table
  pub mechanisms : Bytes
  pub locales : Bytes

unfoldable pub write_connection_start : ConnectionStart → Written
write_connection_start m = do
  write_uint 1 m.version_major
  write_uint 1 m.version_minor
  write_table m.server_properties
  write_longstr m.mechanisms
  write_longstr m.locales
  return

unfoldable pub read_connection_start : Reader ConnectionStart
read_connection_start = do
  version_major ← read_uint 1
  version_minor ← read_uint 1
  server_properties ← read_table
  mechanisms ← read_longstr
  locales ← read_longstr
  pure (record {
    version_major = version_major;
    version_minor = version_minor;
    server_properties = server_properties;
    mechanisms = mechanisms;
    locales = locales;
  })

pub record ConnectionStartOk : Type 0 where
  pub client_properties : Table
  pub mechanism : Bytes
  pub response : Bytes
  pub locale : Bytes

unfoldable pub write_connection_start_ok : ConnectionStartOk → Written
write_connection_start_ok m = do
  write_table m.client_properties
  write_shortstr m.mechanism
  write_longstr m.response
  write_shortstr m.locale
  return

unfoldable pub read_connection_start_ok : Reader ConnectionStartOk
read_connection_start_ok = do
  client_properties ← read_table
  mechanism ← read_shortstr
  response ← read_longstr
  locale ← read_shortstr
  pure (record {
    client_properties = client_properties;
    mechanism = mechanism;
    response = response;
    locale = locale;
  })

pub record ConnectionSecure : Type 0 where
  pub challenge : Bytes

unfoldable pub write_connection_secure : ConnectionSecure → Written
write_connection_secure m = do write_longstr m.challenge; return

unfoldable pub read_connection_secure : Reader ConnectionSecure
read_connection_secure = do challenge ← read_longstr; pure (record { challenge = challenge })

pub record ConnectionSecureOk : Type 0 where
  pub response : Bytes

unfoldable pub write_connection_secure_ok : ConnectionSecureOk → Written
write_connection_secure_ok m = do write_longstr m.response; return

unfoldable pub read_connection_secure_ok : Reader ConnectionSecureOk
read_connection_secure_ok = do response ← read_longstr; pure (record { response = response })

pub record ConnectionTune : Type 0 where
  pub channel_max : ℕ
  pub frame_max : ℕ
  pub heartbeat : ℕ

unfoldable pub write_connection_tune : ConnectionTune → Written
write_connection_tune m = do
  write_uint 2 m.channel_max
  write_uint 4 m.frame_max
  write_uint 2 m.heartbeat
  return

unfoldable pub read_connection_tune : Reader ConnectionTune
read_connection_tune = do
  channel_max ← read_uint 2
  frame_max ← read_uint 4
  heartbeat ← read_uint 2
  pure (record { channel_max = channel_max; frame_max = frame_max; heartbeat = heartbeat })

pub record ConnectionTuneOk : Type 0 where
  pub channel_max : ℕ
  pub frame_max : ℕ
  pub heartbeat : ℕ

unfoldable pub write_connection_tune_ok : ConnectionTuneOk → Written
write_connection_tune_ok m = do
  write_uint 2 m.channel_max
  write_uint 4 m.frame_max
  write_uint 2 m.heartbeat
  return

unfoldable pub read_connection_tune_ok : Reader ConnectionTuneOk
read_connection_tune_ok = do
  channel_max ← read_uint 2
  frame_max ← read_uint 4
  heartbeat ← read_uint 2
  pure (record { channel_max = channel_max; frame_max = frame_max; heartbeat = heartbeat })

pub record ConnectionOpen : Type 0 where
  pub virtual_host : Bytes
  pub reserved1 : Bytes
  pub reserved2 : Bool

unfoldable pub write_connection_open : ConnectionOpen → Written
write_connection_open m = do
  write_shortstr m.virtual_host
  write_shortstr m.reserved1
  write_uint 1 (set_bit m.reserved2 0 0)
  return

unfoldable pub read_connection_open : Reader ConnectionOpen
read_connection_open = do
  virtual_host ← read_shortstr
  reserved1 ← read_shortstr
  bits ← read_uint 1
  pure (record { virtual_host = virtual_host; reserved1 = reserved1; reserved2 = has_bit bits 0 })

pub record ConnectionOpenOk : Type 0 where
  pub reserved1 : Bytes

unfoldable pub write_connection_open_ok : ConnectionOpenOk → Written
write_connection_open_ok m = do write_shortstr m.reserved1; return

unfoldable pub read_connection_open_ok : Reader ConnectionOpenOk
read_connection_open_ok = do reserved1 ← read_shortstr; pure (record { reserved1 = reserved1 })
