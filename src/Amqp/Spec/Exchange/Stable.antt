-- ===== src/Amqp/Spec/Exchange/Stable.antt =====
-- The exchange class. Its reads with more bytes behind.
use gitbook_golang.Amqp.Field.Stable.{string_stable_rules}
use gitbook_golang.Amqp.Spec.Exchange.{
  read_exchange_declare, read_exchange_declare_ok, read_exchange_delete, read_exchange_delete_ok,
  read_exchange_bind, read_exchange_bind_ok, read_exchange_unbind, read_exchange_unbind_ok,
}
use gitbook_golang.Amqp.Wire.Stable.{Stable}

pub read_exchange_declare-Stable : Stable read_exchange_declare
unfolding read_exchange_declare
read_exchange_declare-Stable = search string_stable_rules depth 20

pub read_exchange_declare_ok-Stable : Stable read_exchange_declare_ok
unfolding read_exchange_declare_ok
read_exchange_declare_ok-Stable = search string_stable_rules depth 20

pub read_exchange_delete-Stable : Stable read_exchange_delete
unfolding read_exchange_delete
read_exchange_delete-Stable = search string_stable_rules depth 20

pub read_exchange_delete_ok-Stable : Stable read_exchange_delete_ok
unfolding read_exchange_delete_ok
read_exchange_delete_ok-Stable = search string_stable_rules depth 20

pub read_exchange_bind-Stable : Stable read_exchange_bind
unfolding read_exchange_bind
read_exchange_bind-Stable = search string_stable_rules depth 20

pub read_exchange_bind_ok-Stable : Stable read_exchange_bind_ok
unfolding read_exchange_bind_ok
read_exchange_bind_ok-Stable = search string_stable_rules depth 20

pub read_exchange_unbind-Stable : Stable read_exchange_unbind
unfolding read_exchange_unbind
read_exchange_unbind-Stable = search string_stable_rules depth 20

pub read_exchange_unbind_ok-Stable : Stable read_exchange_unbind_ok
unfolding read_exchange_unbind_ok
read_exchange_unbind_ok-Stable = search string_stable_rules depth 20
