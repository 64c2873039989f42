-- ===== src/Amqp/Spec/Message/Stable.antt =====
-- `parseMethodFrame` with more bytes behind (spec091.go).
use gitbook_golang.Prelude.{ℕ}
use gitbook_golang.Amqp.Spec.Connection.Stable.{
  read_connection_start-Stable, read_connection_start_ok-Stable, read_connection_secure-Stable,
  read_connection_secure_ok-Stable, read_connection_tune-Stable, read_connection_tune_ok-Stable,
  read_connection_open-Stable, read_connection_open_ok-Stable,
}
use gitbook_golang.Amqp.Spec.Consume.Stable.{
  read_basic_qos-Stable, read_basic_qos_ok-Stable, read_basic_consume-Stable,
  read_basic_consume_ok-Stable, read_basic_cancel-Stable, read_basic_cancel_ok-Stable,
  read_basic_get-Stable, read_basic_get_empty-Stable,
}
use gitbook_golang.Amqp.Spec.Content.Stable.{
  read_basic_publish-Stable, read_basic_return-Stable, read_basic_deliver-Stable,
  read_basic_get_ok-Stable,
}
use gitbook_golang.Amqp.Spec.Control.Stable.{
  read_connection_close-Stable, read_connection_close_ok-Stable, read_connection_blocked-Stable,
  read_connection_unblocked-Stable, read_channel_open-Stable, read_channel_open_ok-Stable,
  read_channel_flow-Stable, read_channel_flow_ok-Stable, read_channel_close-Stable,
  read_channel_close_ok-Stable,
}
use gitbook_golang.Amqp.Spec.Exchange.Stable.{
  read_exchange_declare-Stable, read_exchange_declare_ok-Stable, read_exchange_delete-Stable,
  read_exchange_delete_ok-Stable, read_exchange_bind-Stable, read_exchange_bind_ok-Stable,
  read_exchange_unbind-Stable, read_exchange_unbind_ok-Stable,
}
use gitbook_golang.Amqp.Spec.Message.Read.{
  read_connection_method, read_channel_method, read_exchange_method, read_queue_method,
  read_basic_method, read_tx_method, read_confirm_method, read_method,
}
use gitbook_golang.Amqp.Spec.Queue.Stable.{
  read_queue_declare-Stable, read_queue_declare_ok-Stable, read_queue_bind-Stable,
  read_queue_bind_ok-Stable, read_queue_unbind-Stable, read_queue_unbind_ok-Stable,
  read_queue_purge-Stable, read_queue_purge_ok-Stable, read_queue_delete-Stable,
  read_queue_delete_ok-Stable,
}
use gitbook_golang.Amqp.Spec.Settle.Stable.{
  read_basic_ack-Stable, read_basic_reject-Stable, read_basic_recover_async-Stable,
  read_basic_recover-Stable, read_basic_recover_ok-Stable, read_basic_nack-Stable,
  read_tx_select-Stable, read_tx_select_ok-Stable, read_tx_commit-Stable, read_tx_commit_ok-Stable,
  read_tx_rollback-Stable, read_tx_rollback_ok-Stable, read_confirm_select-Stable,
  read_confirm_select_ok-Stable,
}
use gitbook_golang.Amqp.Wire.Stable.{Stable, stable_rules}

read_connection_method-Stable : (method : ℕ) → Stable (read_connection_method method)
unfolding read_connection_method
read_connection_method-Stable method =
    search
      (
        stable_rules, read_connection_start-Stable, read_connection_start_ok-Stable,
        read_connection_secure-Stable, read_connection_secure_ok-Stable,
        read_connection_tune-Stable, read_connection_tune_ok-Stable, read_connection_open-Stable,
        read_connection_open_ok-Stable, read_connection_close-Stable,
        read_connection_close_ok-Stable, read_connection_blocked-Stable,
        read_connection_unblocked-Stable,
      )
      depth 60

read_channel_method-Stable : (method : ℕ) → Stable (read_channel_method method)
unfolding read_channel_method
read_channel_method-Stable method =
    search
      (
        stable_rules, read_channel_open-Stable, read_channel_open_ok-Stable,
        read_channel_flow-Stable, read_channel_flow_ok-Stable, read_channel_close-Stable,
        read_channel_close_ok-Stable,
      )
      depth 60

read_exchange_method-Stable : (method : ℕ) → Stable (read_exchange_method method)
unfolding read_exchange_method
read_exchange_method-Stable method =
    search
      (
        stable_rules, read_exchange_declare-Stable, read_exchange_declare_ok-Stable,
        read_exchange_delete-Stable, read_exchange_delete_ok-Stable, read_exchange_bind-Stable,
        read_exchange_bind_ok-Stable, read_exchange_unbind-Stable, read_exchange_unbind_ok-Stable,
      )
      depth 60

read_queue_method-Stable : (method : ℕ) → Stable (read_queue_method method)
unfolding read_queue_method
read_queue_method-Stable method =
    search
      (
        stable_rules, read_queue_declare-Stable, read_queue_declare_ok-Stable,
        read_queue_bind-Stable, read_queue_bind_ok-Stable, read_queue_unbind-Stable,
        read_queue_unbind_ok-Stable, read_queue_purge-Stable, read_queue_purge_ok-Stable,
        read_queue_delete-Stable, read_queue_delete_ok-Stable,
      )
      depth 60

read_basic_method-Stable : (method : ℕ) → Stable (read_basic_method method)
unfolding read_basic_method
read_basic_method-Stable method =
    search
      (
        stable_rules, read_basic_qos-Stable, read_basic_qos_ok-Stable, read_basic_consume-Stable,
        read_basic_consume_ok-Stable, read_basic_cancel-Stable, read_basic_cancel_ok-Stable,
        read_basic_publish-Stable, read_basic_return-Stable, read_basic_deliver-Stable,
        read_basic_get-Stable, read_basic_get_ok-Stable, read_basic_get_empty-Stable,
        read_basic_ack-Stable, read_basic_reject-Stable, read_basic_recover_async-Stable,
        read_basic_recover-Stable, read_basic_recover_ok-Stable, read_basic_nack-Stable,
      )
      depth 60

read_tx_method-Stable : (method : ℕ) → Stable (read_tx_method method)
unfolding read_tx_method
read_tx_method-Stable method =
    search
      (
        stable_rules, read_tx_select-Stable, read_tx_select_ok-Stable, read_tx_commit-Stable,
        read_tx_commit_ok-Stable, read_tx_rollback-Stable, read_tx_rollback_ok-Stable,
      )
      depth 60

read_confirm_method-Stable : (method : ℕ) → Stable (read_confirm_method method)
unfolding read_confirm_method
read_confirm_method-Stable method =
    search (stable_rules, read_confirm_select-Stable, read_confirm_select_ok-Stable) depth 60

pub read_method-Stable : (class method : ℕ) → Stable (read_method class method)
unfolding read_method
read_method-Stable class method =
    search
      (
        stable_rules, read_connection_method-Stable, read_channel_method-Stable,
        read_exchange_method-Stable, read_queue_method-Stable, read_basic_method-Stable,
        read_tx_method-Stable, read_confirm_method-Stable,
      )
      depth 60
