-- ===== src/Amqp/Spec/Connection/Ends.antt =====
-- The connection class: start to open. Its reads on any bytes.
use gitbook_golang.Prelude.{ℕ}
use gitbook_golang.Amqp.Field.Ends.{string_rules}
use gitbook_golang.Amqp.Spec.Connection.{
  read_connection_start, read_connection_start_ok, read_connection_secure,
  read_connection_secure_ok, read_connection_tune, read_connection_tune_ok, read_connection_open,
  read_connection_open_ok,
}
use gitbook_golang.Amqp.Wire.Shrinks.{Shrinks}

pub read_connection_start-Shrinks : (n : ℕ) → Shrinks n read_connection_start
unfolding read_connection_start
read_connection_start-Shrinks n = search string_rules depth 20

pub read_connection_start_ok-Shrinks : (n : ℕ) → Shrinks n read_connection_start_ok
unfolding read_connection_start_ok
read_connection_start_ok-Shrinks n = search string_rules depth 20

pub read_connection_secure-Shrinks : (n : ℕ) → Shrinks n read_connection_secure
unfolding read_connection_secure
read_connection_secure-Shrinks n = search string_rules depth 20

pub read_connection_secure_ok-Shrinks : (n : ℕ) → Shrinks n read_connection_secure_ok
unfolding read_connection_secure_ok
read_connection_secure_ok-Shrinks n = search string_rules depth 20

pub read_connection_tune-Shrinks : (n : ℕ) → Shrinks n read_connection_tune
unfolding read_connection_tune
read_connection_tune-Shrinks n = search string_rules depth 20

pub read_connection_tune_ok-Shrinks : (n : ℕ) → Shrinks n read_connection_tune_ok
unfolding read_connection_tune_ok
read_connection_tune_ok-Shrinks n = search string_rules depth 20

pub read_connection_open-Shrinks : (n : ℕ) → Shrinks n read_connection_open
unfolding read_connection_open
read_connection_open-Shrinks n = search string_rules depth 20

pub read_connection_open_ok-Shrinks : (n : ℕ) → Shrinks n read_connection_open_ok
unfolding read_connection_open_ok
read_connection_open_ok-Shrinks n = search string_rules depth 20
