-- ===== src/Amqp/Spec/Connection/Codecs.antt =====
-- The connection class: start to open. Its writes and reads together.
use gitbook_golang.Prelude.{◌^◌, ◌<◌, refl, length}
use gitbook_golang.Amqp.Field.Encodable.{IsTable}
use gitbook_golang.Amqp.Field.RoundTrip.{table_lem}
use gitbook_golang.Amqp.Spec.Bits.{one-lt, flag_laws}
use gitbook_golang.Amqp.Spec.Connection.{
  ConnectionStart, write_connection_start, read_connection_start, ConnectionStartOk,
  write_connection_start_ok, read_connection_start_ok, ConnectionSecure, write_connection_secure,
  read_connection_secure, ConnectionSecureOk, write_connection_secure_ok, read_connection_secure_ok,
  ConnectionTune, write_connection_tune, read_connection_tune, ConnectionTuneOk,
  write_connection_tune_ok, read_connection_tune_ok, ConnectionOpen, write_connection_open,
  read_connection_open, ConnectionOpenOk, write_connection_open_ok, read_connection_open_ok,
}
use gitbook_golang.Amqp.Strings.{shortstr, longstr}
use gitbook_golang.Amqp.Wire.Codec.{Codec, seq, Codec-return}
use gitbook_golang.Amqp.Wire.Words.{uint}

abbrev pub FitsConnectionStart : ConnectionStart → Type 0
FitsConnectionStart m =
    (m.version_major < 2 ^ 8)
    × (m.version_minor < 2 ^ 8)
    × IsTable m.server_properties
    × (length m.mechanisms < 2 ^ 31)
    × (length m.locales < 2 ^ 31)

pub connection_start_codec :
    (m : ConnectionStart)
    → FitsConnectionStart m
    → Codec (write_connection_start m) read_connection_start m
unfolding write_connection_start read_connection_start
connection_start_codec m h = seq (uint 1 h.0) _ (
    seq (uint 1 h.1) _
      (seq (table_lem h.2) _ (seq (longstr h.3) _ (seq (longstr h.4) _ (Codec-return refl)))))

abbrev pub FitsConnectionStartOk : ConnectionStartOk → Type 0
FitsConnectionStartOk m =
    IsTable m.client_properties
    × (length m.mechanism < 2 ^ 8)
    × (length m.response < 2 ^ 31)
    × (length m.locale < 2 ^ 8)

pub connection_start_ok_codec :
    (m : ConnectionStartOk)
    → FitsConnectionStartOk m
    → Codec (write_connection_start_ok m) read_connection_start_ok m
unfolding write_connection_start_ok read_connection_start_ok
connection_start_ok_codec m h =
    seq (table_lem h.0) _
      (seq (shortstr h.1) _ (seq (longstr h.2) _ (seq (shortstr h.3) _ (Codec-return refl))))

abbrev pub FitsConnectionSecure : ConnectionSecure → Type 0
FitsConnectionSecure m = length m.challenge < 2 ^ 31

pub connection_secure_codec :
    (m : ConnectionSecure)
    → FitsConnectionSecure m
    → Codec (write_connection_secure m) read_connection_secure m
unfolding write_connection_secure read_connection_secure
connection_secure_codec m h = seq (longstr h) _ (Codec-return refl)

abbrev pub FitsConnectionSecureOk : ConnectionSecureOk → Type 0
FitsConnectionSecureOk m = length m.response < 2 ^ 31

pub connection_secure_ok_codec :
    (m : ConnectionSecureOk)
    → FitsConnectionSecureOk m
    → Codec (write_connection_secure_ok m) read_connection_secure_ok m
unfolding write_connection_secure_ok read_connection_secure_ok
connection_secure_ok_codec m h = seq (longstr h) _ (Codec-return refl)

abbrev pub FitsConnectionTune : ConnectionTune → Type 0
FitsConnectionTune m = (m.channel_max < 2 ^ 16) × (m.frame_max < 2 ^ 32) × (m.heartbeat < 2 ^ 16)

pub connection_tune_codec :
    (m : ConnectionTune)
    → FitsConnectionTune m
    → Codec (write_connection_tune m) read_connection_tune m
unfolding write_connection_tune read_connection_tune
connection_tune_codec m h =
    seq (uint 2 h.0) _ (seq (uint 4 h.1) _ (seq (uint 2 h.2) _ (Codec-return refl)))

abbrev pub FitsConnectionTuneOk : ConnectionTuneOk → Type 0
FitsConnectionTuneOk m = (m.channel_max < 2 ^ 16) × (m.frame_max < 2 ^ 32) × (m.heartbeat < 2 ^ 16)

pub connection_tune_ok_codec :
    (m : ConnectionTuneOk)
    → FitsConnectionTuneOk m
    → Codec (write_connection_tune_ok m) read_connection_tune_ok m
unfolding write_connection_tune_ok read_connection_tune_ok
connection_tune_ok_codec m h =
    seq (uint 2 h.0) _ (seq (uint 4 h.1) _ (seq (uint 2 h.2) _ (Codec-return refl)))

abbrev pub FitsConnectionOpen : ConnectionOpen → Type 0
FitsConnectionOpen m = (length m.virtual_host < 2 ^ 8) × (length m.reserved1 < 2 ^ 8)

pub connection_open_codec :
    (m : ConnectionOpen)
    → FitsConnectionOpen m
    → Codec (write_connection_open m) read_connection_open m
unfolding write_connection_open read_connection_open
connection_open_codec m h =
    seq (shortstr h.0) _
      (seq (shortstr h.1) _ (seq (uint 1 (one-lt m.reserved2)) _ (Codec-return (simp flag_laws))))

abbrev pub FitsConnectionOpenOk : ConnectionOpenOk → Type 0
FitsConnectionOpenOk m = length m.reserved1 < 2 ^ 8

pub connection_open_ok_codec :
    (m : ConnectionOpenOk)
    → FitsConnectionOpenOk m
    → Codec (write_connection_open_ok m) read_connection_open_ok m
unfolding write_connection_open_ok read_connection_open_ok
connection_open_ok_codec m h = seq (shortstr h) _ (Codec-return refl)
