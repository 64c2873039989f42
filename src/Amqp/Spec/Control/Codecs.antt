-- ===== src/Amqp/Spec/Control/Codecs.antt =====
-- The rest of the connection class, and the channel class. Its writes and reads together.
use gitbook_golang.Prelude.{◌^◌, ◌<◌, refl, length}
use gitbook_golang.Amqp.Spec.Bits.{one-lt, flag_laws}
use gitbook_golang.Amqp.Spec.Control.{
  ConnectionClose, write_connection_close, read_connection_close, ConnectionCloseOk,
  write_connection_close_ok, read_connection_close_ok, ConnectionBlocked, write_connection_blocked,
  read_connection_blocked, ConnectionUnblocked, write_connection_unblocked,
  read_connection_unblocked, ChannelOpen, write_channel_open, read_channel_open, ChannelOpenOk,
  write_channel_open_ok, read_channel_open_ok, ChannelFlow, write_channel_flow, read_channel_flow,
  ChannelFlowOk, write_channel_flow_ok, read_channel_flow_ok, ChannelClose, write_channel_close,
  read_channel_close, ChannelCloseOk, write_channel_close_ok, read_channel_close_ok,
}
use gitbook_golang.Amqp.Strings.{shortstr, longstr}
use gitbook_golang.Amqp.Wire.Codec.{Codec, seq, Codec-return}
use gitbook_golang.Amqp.Wire.Words.{uint}

abbrev pub FitsConnectionClose : ConnectionClose → Type 0
FitsConnectionClose m =
    (m.reply_code < 2 ^ 16)
    × (length m.reply_text < 2 ^ 8)
    × (m.class_id < 2 ^ 16)
    × (m.method_id < 2 ^ 16)

pub connection_close_codec :
    (m : ConnectionClose)
    → FitsConnectionClose m
    → Codec (write_connection_close m) read_connection_close m
unfolding write_connection_close read_connection_close
connection_close_codec m h =
    seq (uint 2 h.0) _
      (seq (shortstr h.1) _ (seq (uint 2 h.2) _ (seq (uint 2 h.3) _ (Codec-return refl))))

abbrev pub FitsConnectionCloseOk : ConnectionCloseOk → Type 0
FitsConnectionCloseOk m = Unit {0}

pub connection_close_ok_codec :
    (m : ConnectionCloseOk)
    → FitsConnectionCloseOk m
    → Codec (write_connection_close_ok m) read_connection_close_ok m
unfolding write_connection_close_ok read_connection_close_ok
connection_close_ok_codec m h = Codec-return refl

abbrev pub FitsConnectionBlocked : ConnectionBlocked → Type 0
FitsConnectionBlocked m = length m.reason < 2 ^ 8

pub connection_blocked_codec :
    (m : ConnectionBlocked)
    → FitsConnectionBlocked m
    → Codec (write_connection_blocked m) read_connection_blocked m
unfolding write_connection_blocked read_connection_blocked
connection_blocked_codec m h = seq (shortstr h) _ (Codec-return refl)

abbrev pub FitsConnectionUnblocked : ConnectionUnblocked → Type 0
FitsConnectionUnblocked m = Unit {0}

pub connection_unblocked_codec :
    (m : ConnectionUnblocked)
    → FitsConnectionUnblocked m
    → Codec (write_connection_unblocked m) read_connection_unblocked m
unfolding write_connection_unblocked read_connection_unblocked
connection_unblocked_codec m h = Codec-return refl

abbrev pub FitsChannelOpen : ChannelOpen → Type 0
FitsChannelOpen m = length m.reserved1 < 2 ^ 8

pub channel_open_codec :
    (m : ChannelOpen) → FitsChannelOpen m → Codec (write_channel_open m) read_channel_open m
unfolding write_channel_open read_channel_open
channel_open_codec m h = seq (shortstr h) _ (Codec-return refl)

abbrev pub FitsChannelOpenOk : ChannelOpenOk → Type 0
FitsChannelOpenOk m = length m.reserved1 < 2 ^ 31

pub channel_open_ok_codec :
    (m : ChannelOpenOk)
    → FitsChannelOpenOk m
    → Codec (write_channel_open_ok m) read_channel_open_ok m
unfolding write_channel_open_ok read_channel_open_ok
channel_open_ok_codec m h = seq (longstr h) _ (Codec-return refl)

abbrev pub FitsChannelFlow : ChannelFlow → Type 0
FitsChannelFlow m = Unit {0}

pub channel_flow_codec :
    (m : ChannelFlow) → FitsChannelFlow m → Codec (write_channel_flow m) read_channel_flow m
unfolding write_channel_flow read_channel_flow
channel_flow_codec m h = seq (uint 1 (one-lt m.active)) _ (Codec-return (simp flag_laws))

abbrev pub FitsChannelFlowOk : ChannelFlowOk → Type 0
FitsChannelFlowOk m = Unit {0}

pub channel_flow_ok_codec :
    (m : ChannelFlowOk)
    → FitsChannelFlowOk m
    → Codec (write_channel_flow_ok m) read_channel_flow_ok m
unfolding write_channel_flow_ok read_channel_flow_ok
channel_flow_ok_codec m h = seq (uint 1 (one-lt m.active)) _ (Codec-return (simp flag_laws))

abbrev pub FitsChannelClose : ChannelClose → Type 0
FitsChannelClose m =
    (m.reply_code < 2 ^ 16)
    × (length m.reply_text < 2 ^ 8)
    × (m.class_id < 2 ^ 16)
    × (m.method_id < 2 ^ 16)

pub channel_close_codec :
    (m : ChannelClose) → FitsChannelClose m → Codec (write_channel_close m) read_channel_close m
unfolding write_channel_close read_channel_close
channel_close_codec m h =
    seq (uint 2 h.0) _
      (seq (shortstr h.1) _ (seq (uint 2 h.2) _ (seq (uint 2 h.3) _ (Codec-return refl))))

abbrev pub FitsChannelCloseOk : ChannelCloseOk → Type 0
FitsChannelCloseOk m = Unit {0}

pub channel_close_ok_codec :
    (m : ChannelCloseOk)
    → FitsChannelCloseOk m
    → Codec (write_channel_close_ok m) read_channel_close_ok m
unfolding write_channel_close_ok read_channel_close_ok
channel_close_ok_codec m h = Codec-return refl
