-- ===== src/Amqp/Spec/Control/Stable.antt =====
-- The rest of the connection class, and the channel class. Its reads with more bytes behind.
use gitbook_golang.Amqp.Field.Stable.{string_stable_rules}
use gitbook_golang.Amqp.Spec.Control.{
  read_connection_close, read_connection_close_ok, read_connection_blocked,
  read_connection_unblocked, read_channel_open, read_channel_open_ok, read_channel_flow,
  read_channel_flow_ok, read_channel_close, read_channel_close_ok,
}
use gitbook_golang.Amqp.Wire.Stable.{Stable}

pub read_connection_close-Stable : Stable read_connection_close
unfolding read_connection_close
read_connection_close-Stable = search string_stable_rules depth 20

pub read_connection_close_ok-Stable : Stable read_connection_close_ok
unfolding read_connection_close_ok
read_connection_close_ok-Stable = search string_stable_rules depth 20

pub read_connection_blocked-Stable : Stable read_connection_blocked
unfolding read_connection_blocked
read_connection_blocked-Stable = search string_stable_rules depth 20

pub read_connection_unblocked-Stable : Stable read_connection_unblocked
unfolding read_connection_unblocked
read_connection_unblocked-Stable = search string_stable_rules depth 20

pub read_channel_open-Stable : Stable read_channel_open
unfolding read_channel_open
read_channel_open-Stable = search string_stable_rules depth 20

pub read_channel_open_ok-Stable : Stable read_channel_open_ok
unfolding read_channel_open_ok
read_channel_open_ok-Stable = search string_stable_rules depth 20

pub read_channel_flow-Stable : Stable read_channel_flow
unfolding read_channel_flow
read_channel_flow-Stable = search string_stable_rules depth 20

pub read_channel_flow_ok-Stable : Stable read_channel_flow_ok
unfolding read_channel_flow_ok
read_channel_flow_ok-Stable = search string_stable_rules depth 20

pub read_channel_close-Stable : Stable read_channel_close
unfolding read_channel_close
read_channel_close-Stable = search string_stable_rules depth 20

pub read_channel_close_ok-Stable : Stable read_channel_close_ok
unfolding read_channel_close_ok
read_channel_close_ok-Stable = search string_stable_rules depth 20
