-- ===== src/Amqp/Spec/Control/Ends.antt =====
-- The rest of the connection class, and the channel class. Its reads on any bytes.
use gitbook_golang.Prelude.{ℕ}
use gitbook_golang.Amqp.Field.Ends.{string_rules}
use gitbook_golang.Amqp.Spec.Control.{
  read_connection_close, read_connection_close_ok, read_connection_blocked,
  read_connection_unblocked, read_channel_open, read_channel_open_ok, read_channel_flow,
  read_channel_flow_ok, read_channel_close, read_channel_close_ok,
}
use gitbook_golang.Amqp.Wire.Shrinks.{Shrinks}

pub read_connection_close-Shrinks : (n : ℕ) → Shrinks n read_connection_close
unfolding read_connection_close
read_connection_close-Shrinks n = search string_rules depth 20

pub read_connection_close_ok-Shrinks : (n : ℕ) → Shrinks n read_connection_close_ok
unfolding read_connection_close_ok
read_connection_close_ok-Shrinks n = search string_rules depth 20

pub read_connection_blocked-Shrinks : (n : ℕ) → Shrinks n read_connection_blocked
unfolding read_connection_blocked
read_connection_blocked-Shrinks n = search string_rules depth 20

pub read_connection_unblocked-Shrinks : (n : ℕ) → Shrinks n read_connection_unblocked
unfolding read_connection_unblocked
read_connection_unblocked-Shrinks n = search string_rules depth 20

pub read_channel_open-Shrinks : (n : ℕ) → Shrinks n read_channel_open
unfolding read_channel_open
read_channel_open-Shrinks n = search string_rules depth 20

pub read_channel_open_ok-Shrinks : (n : ℕ) → Shrinks n read_channel_open_ok
unfolding read_channel_open_ok
read_channel_open_ok-Shrinks n = search string_rules depth 20

pub read_channel_flow-Shrinks : (n : ℕ) → Shrinks n read_channel_flow
unfolding read_channel_flow
read_channel_flow-Shrinks n = search string_rules depth 20

pub read_channel_flow_ok-Shrinks : (n : ℕ) → Shrinks n read_channel_flow_ok
unfolding read_channel_flow_ok
read_channel_flow_ok-Shrinks n = search string_rules depth 20

pub read_channel_close-Shrinks : (n : ℕ) → Shrinks n read_channel_close
unfolding read_channel_close
read_channel_close-Shrinks n = search string_rules depth 20

pub read_channel_close_ok-Shrinks : (n : ℕ) → Shrinks n read_channel_close_ok
unfolding read_channel_close_ok
read_channel_close_ok-Shrinks n = search string_rules depth 20
