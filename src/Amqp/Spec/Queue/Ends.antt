-- ===== src/Amqp/Spec/Queue/Ends.antt =====
-- The queue class. Its reads on any bytes.
use gitbook_golang.Prelude.{ℕ}
use gitbook_golang.Amqp.Field.Ends.{string_rules}
use gitbook_golang.Amqp.Spec.Queue.{
  read_queue_declare, read_queue_declare_ok, read_queue_bind, read_queue_bind_ok, read_queue_unbind,
  read_queue_unbind_ok, read_queue_purge, read_queue_purge_ok, read_queue_delete,
  read_queue_delete_ok,
}
use gitbook_golang.Amqp.Wire.Shrinks.{Shrinks}

pub read_queue_declare-Shrinks : (n : ℕ) → Shrinks n read_queue_declare
unfolding read_queue_declare
read_queue_declare-Shrinks n = search string_rules depth 20

pub read_queue_declare_ok-Shrinks : (n : ℕ) → Shrinks n read_queue_declare_ok
unfolding read_queue_declare_ok
read_queue_declare_ok-Shrinks n = search string_rules depth 20

pub read_queue_bind-Shrinks : (n : ℕ) → Shrinks n read_queue_bind
unfolding read_queue_bind
read_queue_bind-Shrinks n = search string_rules depth 20

pub read_queue_bind_ok-Shrinks : (n : ℕ) → Shrinks n read_queue_bind_ok
unfolding read_queue_bind_ok
read_queue_bind_ok-Shrinks n = search string_rules depth 20

pub read_queue_unbind-Shrinks : (n : ℕ) → Shrinks n read_queue_unbind
unfolding read_queue_unbind
read_queue_unbind-Shrinks n = search string_rules depth 20

pub read_queue_unbind_ok-Shrinks : (n : ℕ) → Shrinks n read_queue_unbind_ok
unfolding read_queue_unbind_ok
read_queue_unbind_ok-Shrinks n = search string_rules depth 20

pub read_queue_purge-Shrinks : (n : ℕ) → Shrinks n read_queue_purge
unfolding read_queue_purge
read_queue_purge-Shrinks n = search string_rules depth 20

pub read_queue_purge_ok-Shrinks : (n : ℕ) → Shrinks n read_queue_purge_ok
unfolding read_queue_purge_ok
read_queue_purge_ok-Shrinks n = search string_rules depth 20

pub read_queue_delete-Shrinks : (n : ℕ) → Shrinks n read_queue_delete
unfolding read_queue_delete
read_queue_delete-Shrinks n = search string_rules depth 20

pub read_queue_delete_ok-Shrinks : (n : ℕ) → Shrinks n read_queue_delete_ok
unfolding read_queue_delete_ok
read_queue_delete_ok-Shrinks n = search string_rules depth 20
