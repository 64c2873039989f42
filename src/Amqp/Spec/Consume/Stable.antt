-- ===== src/Amqp/Spec/Consume/Stable.antt =====
-- The basic class: prefetching, consumers and polling. Its reads with more bytes behind.
use gitbook_golang.Amqp.Field.Stable.{string_stable_rules}
use gitbook_golang.Amqp.Spec.Consume.{
  read_basic_qos, read_basic_qos_ok, read_basic_consume, read_basic_consume_ok, read_basic_cancel,
  read_basic_cancel_ok, read_basic_get, read_basic_get_empty,
}
use gitbook_golang.Amqp.Wire.Stable.{Stable}

pub read_basic_qos-Stable : Stable read_basic_qos
unfolding read_basic_qos
read_basic_qos-Stable = search string_stable_rules depth 20

pub read_basic_qos_ok-Stable : Stable read_basic_qos_ok
unfolding read_basic_qos_ok
read_basic_qos_ok-Stable = search string_stable_rules depth 20

pub read_basic_consume-Stable : Stable read_basic_consume
unfolding read_basic_consume
read_basic_consume-Stable = search string_stable_rules depth 20

pub read_basic_consume_ok-Stable : Stable read_basic_consume_ok
unfolding read_basic_consume_ok
read_basic_consume_ok-Stable = search string_stable_rules depth 20

pub read_basic_cancel-Stable : Stable read_basic_cancel
unfolding read_basic_cancel
read_basic_cancel-Stable = search string_stable_rules depth 20

pub read_basic_cancel_ok-Stable : Stable read_basic_cancel_ok
unfolding read_basic_cancel_ok
read_basic_cancel_ok-Stable = search string_stable_rules depth 20

pub read_basic_get-Stable : Stable read_basic_get
unfolding read_basic_get
read_basic_get-Stable = search string_stable_rules depth 20

pub read_basic_get_empty-Stable : Stable read_basic_get_empty
unfolding read_basic_get_empty
read_basic_get_empty-Stable = search string_stable_rules depth 20
