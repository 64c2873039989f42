-- ===== src/Amqp/Spec/Consume/Ends.antt =====
-- The basic class: prefetching, consumers and polling. Its reads on any bytes.
use gitbook_golang.Prelude.{ℕ}
use gitbook_golang.Amqp.Field.Ends.{string_rules}
use gitbook_golang.Amqp.Spec.Consume.{
  read_basic_qos, read_basic_qos_ok, read_basic_consume, read_basic_consume_ok, read_basic_cancel,
  read_basic_cancel_ok, read_basic_get, read_basic_get_empty,
}
use gitbook_golang.Amqp.Wire.Shrinks.{Shrinks}

pub read_basic_qos-Shrinks : (n : ℕ) → Shrinks n read_basic_qos
unfolding read_basic_qos
read_basic_qos-Shrinks n = search string_rules depth 20

pub read_basic_qos_ok-Shrinks : (n : ℕ) → Shrinks n read_basic_qos_ok
unfolding read_basic_qos_ok
read_basic_qos_ok-Shrinks n = search string_rules depth 20

pub read_basic_consume-Shrinks : (n : ℕ) → Shrinks n read_basic_consume
unfolding read_basic_consume
read_basic_consume-Shrinks n = search string_rules depth 20

pub read_basic_consume_ok-Shrinks : (n : ℕ) → Shrinks n read_basic_consume_ok
unfolding read_basic_consume_ok
read_basic_consume_ok-Shrinks n = search string_rules depth 20

pub read_basic_cancel-Shrinks : (n : ℕ) → Shrinks n read_basic_cancel
unfolding read_basic_cancel
read_basic_cancel-Shrinks n = search string_rules depth 20

pub read_basic_cancel_ok-Shrinks : (n : ℕ) → Shrinks n read_basic_cancel_ok
unfolding read_basic_cancel_ok
read_basic_cancel_ok-Shrinks n = search string_rules depth 20

pub read_basic_get-Shrinks : (n : ℕ) → Shrinks n read_basic_get
unfolding read_basic_get
read_basic_get-Shrinks n = search string_rules depth 20

pub read_basic_get_empty-Shrinks : (n : ℕ) → Shrinks n read_basic_get_empty
unfolding read_basic_get_empty
read_basic_get_empty-Shrinks n = search string_rules depth 20
