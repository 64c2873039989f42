-- ===== src/Amqp/Spec/Exchange/Ends.antt =====
-- The exchange class. Its reads on any bytes.
use gitbook_golang.Prelude.{ℕ}
use gitbook_golang.Amqp.Field.Ends.{string_rules}
use gitbook_golang.Amqp.Spec.Exchange.{
  read_exchange_declare, read_exchange_declare_ok, read_exchange_delete, read_exchange_delete_ok,
  read_exchange_bind, read_exchange_bind_ok, read_exchange_unbind, read_exchange_unbind_ok,
}
use gitbook_golang.Amqp.Wire.Shrinks.{Shrinks}

pub read_exchange_declare-Shrinks : (n : ℕ) → Shrinks n read_exchange_declare
unfolding read_exchange_declare
read_exchange_declare-Shrinks n = search string_rules depth 20

pub read_exchange_declare_ok-Shrinks : (n : ℕ) → Shrinks n read_exchange_declare_ok
unfolding read_exchange_declare_ok
read_exchange_declare_ok-Shrinks n = search string_rules depth 20

pub read_exchange_delete-Shrinks : (n : ℕ) → Shrinks n read_exchange_delete
unfolding read_exchange_delete
read_exchange_delete-Shrinks n = search string_rules depth 20

pub read_exchange_delete_ok-Shrinks : (n : ℕ) → Shrinks n read_exchange_delete_ok
unfolding read_exchange_delete_ok
read_exchange_delete_ok-Shrinks n = search string_rules depth 20

pub read_exchange_bind-Shrinks : (n : ℕ) → Shrinks n read_exchange_bind
unfolding read_exchange_bind
read_exchange_bind-Shrinks n = search string_rules depth 20

pub read_exchange_bind_ok-Shrinks : (n : ℕ) → Shrinks n read_exchange_bind_ok
unfolding read_exchange_bind_ok
read_exchange_bind_ok-Shrinks n = search string_rules depth 20

pub read_exchange_unbind-Shrinks : (n : ℕ) → Shrinks n read_exchange_unbind
unfolding read_exchange_unbind
read_exchange_unbind-Shrinks n = search string_rules depth 20

pub read_exchange_unbind_ok-Shrinks : (n : ℕ) → Shrinks n read_exchange_unbind_ok
unfolding read_exchange_unbind_ok
read_exchange_unbind_ok-Shrinks n = search string_rules depth 20
