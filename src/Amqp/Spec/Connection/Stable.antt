-- ===== src/Amqp/Spec/Connection/Stable.antt =====
-- The connection class: start to open. Its reads with more bytes behind.
use gitbook_golang.Amqp.Field.Stable.{string_stable_rules}
use gitbook_golang.Amqp.Spec.Connection.{
  read_connection_start, read_connection_start_ok, read_connection_secure,
  read_connection_secure_ok, read_connection_tune, read_connection_tune_ok, read_connection_open,
  read_connection_open_ok,
}
use gitbook_golang.Amqp.Wire.Stable.{Stable}

pub read_connection_start-Stable : Stable read_connection_start
unfolding read_connection_start
read_connection_start-Stable = search string_stable_rules depth 20

pub read_connection_start_ok-Stable : Stable read_connection_start_ok
unfolding read_connection_start_ok
read_connection_start_ok-Stable = search string_stable_rules depth 20

pub read_connection_secure-Stable : Stable read_connection_secure
unfolding read_connection_secure
read_connection_secure-Stable = search string_stable_rules depth 20

pub read_connection_secure_ok-Stable : Stable read_connection_secure_ok
unfolding read_connection_secure_ok
read_connection_secure_ok-Stable = search string_stable_rules depth 20

pub read_connection_tune-Stable : Stable read_connection_tune
unfolding read_connection_tune
read_connection_tune-Stable = search string_stable_rules depth 20

pub read_connection_tune_ok-Stable : Stable read_connection_tune_ok
unfolding read_connection_tune_ok
read_connection_tune_ok-Stable = search string_stable_rules depth 20

pub read_connection_open-Stable : Stable read_connection_open
unfolding read_connection_open
read_connection_open-Stable = search string_stable_rules depth 20

pub read_connection_open_ok-Stable : Stable read_connection_open_ok
unfolding read_connection_open_ok
read_connection_open_ok-Stable = search string_stable_rules depth 20
