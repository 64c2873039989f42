-- ===== src/Amqp/Spec/Queue/Stable.antt =====
-- The queue class. Its reads with more bytes behind.
use gitbook_golang.Amqp.Field.Stable.{string_stable_rules}
use gitbook_golang.Amqp.Spec.Queue.{
  read_queue_declare, read_queue_declare_ok, read_queue_bind, read_queue_bind_ok, read_queue_unbind,
  read_queue_unbind_ok, read_queue_purge, read_queue_purge_ok, read_queue_delete,
  read_queue_delete_ok,
}
use gitbook_golang.Amqp.Wire.Stable.{Stable}

pub read_queue_declare-Stable : Stable read_queue_declare
unfolding read_queue_declare
read_queue_declare-Stable = search string_stable_rules depth 20

pub read_queue_declare_ok-Stable : Stable read_queue_declare_ok
unfolding read_queue_declare_ok
read_queue_declare_ok-Stable = search string_stable_rules depth 20

pub read_queue_bind-Stable : Stable read_queue_bind
unfolding read_queue_bind
read_queue_bind-Stable = search string_stable_rules depth 20

pub read_queue_bind_ok-Stable : Stable read_queue_bind_ok
unfolding read_queue_bind_ok
read_queue_bind_ok-Stable = search string_stable_rules depth 20

pub read_queue_unbind-Stable : Stable read_queue_unbind
unfolding read_queue_unbind
read_queue_unbind-Stable = search string_stable_rules depth 20

pub read_queue_unbind_ok-Stable : Stable read_queue_unbind_ok
unfolding read_queue_unbind_ok
read_queue_unbind_ok-Stable = search string_stable_rules depth 20

pub read_queue_purge-Stable : Stable read_queue_purge
unfolding read_queue_purge
read_queue_purge-Stable = search string_stable_rules depth 20

pub read_queue_purge_ok-Stable : Stable read_queue_purge_ok
unfolding read_queue_purge_ok
read_queue_purge_ok-Stable = search string_stable_rules depth 20

pub read_queue_delete-Stable : Stable read_queue_delete
unfolding read_queue_delete
read_queue_delete-Stable = search string_stable_rules depth 20

pub read_queue_delete_ok-Stable : Stable read_queue_delete_ok
unfolding read_queue_delete_ok
read_queue_delete_ok-Stable = search string_stable_rules depth 20
