-- ===== src/Amqp/Spec/Message/Ends.antt =====
-- `parseMethodFrame` on any bytes (spec091.go).
use gitbook_golang.Prelude.{ℕ}
use gitbook_golang.Amqp.Spec.Connection.Ends.{
  read_connection_start-Shrinks, read_connection_start_ok-Shrinks, read_connection_secure-Shrinks,
  read_connection_secure_ok-Shrinks, read_connection_tune-Shrinks, read_connection_tune_ok-Shrinks,
  read_connection_open-Shrinks, read_connection_open_ok-Shrinks,
}
use gitbook_golang.Amqp.Spec.Consume.Ends.{
  read_basic_qos-Shrinks, read_basic_qos_ok-Shrinks, read_basic_consume-Shrinks,
  read_basic_consume_ok-Shrinks, read_basic_cancel-Shrinks, read_basic_cancel_ok-Shrinks,
  read_basic_get-Shrinks, read_basic_get_empty-Shrinks,
}
use gitbook_golang.Amqp.Spec.Content.Ends.{
  read_basic_publish-Shrinks, read_basic_return-Shrinks, read_basic_deliver-Shrinks,
  read_basic_get_ok-Shrinks,
}
use gitbook_golang.Amqp.Spec.Control.Ends.{
  read_connection_close-Shrinks, read_connection_close_ok-Shrinks, read_connection_blocked-Shrinks,
  read_connection_unblocked-Shrinks, read_channel_open-Shrinks, read_channel_open_ok-Shrinks,
  read_channel_flow-Shrinks, read_channel_flow_ok-Shrinks, read_channel_close-Shrinks,
  read_channel_close_ok-Shrinks,
}
use gitbook_golang.Amqp.Spec.Exchange.Ends.{
  read_exchange_declare-Shrinks, read_exchange_declare_ok-Shrinks, read_exchange_delete-Shrinks,
  read_exchange_delete_ok-Shrinks, read_exchange_bind-Shrinks, read_exchange_bind_ok-Shrinks,
  read_exchange_unbind-Shrinks, read_exchange_unbind_ok-Shrinks,
}
use gitbook_golang.Amqp.Spec.Message.Read.{
  read_connection_method, read_channel_method, read_exchange_method, read_queue_method,
  read_basic_method, read_tx_method, read_confirm_method, read_method,
}
use gitbook_golang.Amqp.Spec.Queue.Ends.{
  read_queue_declare-Shrinks, read_queue_declare_ok-Shrinks, read_queue_bind-Shrinks,
  read_queue_bind_ok-Shrinks, read_queue_unbind-Shrinks, read_queue_unbind_ok-Shrinks,
  read_queue_purge-Shrinks, read_queue_purge_ok-Shrinks, read_queue_delete-Shrinks,
  read_queue_delete_ok-Shrinks,
}
use gitbook_golang.Amqp.Spec.Settle.Ends.{
  read_basic_ack-Shrinks, read_basic_reject-Shrinks, read_basic_recover_async-Shrinks,
  read_basic_recover-Shrinks, read_basic_recover_ok-Shrinks, read_basic_nack-Shrinks,
  read_tx_select-Shrinks, read_tx_select_ok-Shrinks, read_tx_commit-Shrinks,
  read_tx_commit_ok-Shrinks, read_tx_rollback-Shrinks, read_tx_rollback_ok-Shrinks,
  read_confirm_select-Shrinks, read_confirm_select_ok-Shrinks,
}
use gitbook_golang.Amqp.Wire.Shrinks.{Shrinks, shrink_rules}

read_connection_method-Shrinks : (n method : ℕ) → Shrinks n (read_connection_method method)
unfolding read_connection_method
read_connection_method-Shrinks n method =
    search
      (
        shrink_rules, read_connection_start-Shrinks, read_connection_start_ok-Shrinks,
        read_connection_secure-Shrinks, read_connection_secure_ok-Shrinks,
        read_connection_tune-Shrinks, read_connection_tune_ok-Shrinks, read_connection_open-Shrinks,
        read_connection_open_ok-Shrinks, read_connection_close-Shrinks,
        read_connection_close_ok-Shrinks, read_connection_blocked-Shrinks,
        read_connection_unblocked-Shrinks,
      )
      depth 60

read_channel_method-Shrinks : (n method : ℕ) → Shrinks n (read_channel_method method)
unfolding read_channel_method
read_channel_method-Shrinks n method =
    search
      (
        shrink_rules, read_channel_open-Shrinks, read_channel_open_ok-Shrinks,
        read_channel_flow-Shrinks, read_channel_flow_ok-Shrinks, read_channel_close-Shrinks,
        read_channel_close_ok-Shrinks,
      )
      depth 60

read_exchange_method-Shrinks : (n method : ℕ) → Shrinks n (read_exchange_method method)
unfolding read_exchange_method
read_exchange_method-Shrinks n method =
    search
      (
        shrink_rules, read_exchange_declare-Shrinks, read_exchange_declare_ok-Shrinks,
        read_exchange_delete-Shrinks, read_exchange_delete_ok-Shrinks, read_exchange_bind-Shrinks,
        read_exchange_bind_ok-Shrinks, read_exchange_unbind-Shrinks,
        read_exchange_unbind_ok-Shrinks,
      )
      depth 60

read_queue_method-Shrinks : (n method : ℕ) → Shrinks n (read_queue_method method)
unfolding read_queue_method
read_queue_method-Shrinks n method =
    search
      (
        shrink_rules, read_queue_declare-Shrinks, read_queue_declare_ok-Shrinks,
        read_queue_bind-Shrinks, read_queue_bind_ok-Shrinks, read_queue_unbind-Shrinks,
        read_queue_unbind_ok-Shrinks, read_queue_purge-Shrinks, read_queue_purge_ok-Shrinks,
        read_queue_delete-Shrinks, read_queue_delete_ok-Shrinks,
      )
      depth 60

read_basic_method-Shrinks : (n method : ℕ) → Shrinks n (read_basic_method method)
unfolding read_basic_method
read_basic_method-Shrinks n method =
    search
      (
        shrink_rules, read_basic_qos-Shrinks, read_basic_qos_ok-Shrinks, read_basic_consume-Shrinks,
        read_basic_consume_ok-Shrinks, read_basic_cancel-Shrinks, read_basic_cancel_ok-Shrinks,
        read_basic_publish-Shrinks, read_basic_return-Shrinks, read_basic_deliver-Shrinks,
        read_basic_get-Shrinks, read_basic_get_ok-Shrinks, read_basic_get_empty-Shrinks,
        read_basic_ack-Shrinks, read_basic_reject-Shrinks, read_basic_recover_async-Shrinks,
        read_basic_recover-Shrinks, read_basic_recover_ok-Shrinks, read_basic_nack-Shrinks,
      )
      depth 60

read_tx_method-Shrinks : (n method : ℕ) → Shrinks n (read_tx_method method)
unfolding read_tx_method
read_tx_method-Shrinks n method =
    search
      (
        shrink_rules, read_tx_select-Shrinks, read_tx_select_ok-Shrinks, read_tx_commit-Shrinks,
        read_tx_commit_ok-Shrinks, read_tx_rollback-Shrinks, read_tx_rollback_ok-Shrinks,
      )
      depth 60

read_confirm_method-Shrinks : (n method : ℕ) → Shrinks n (read_confirm_method method)
unfolding read_confirm_method
read_confirm_method-Shrinks n method =
    search (shrink_rules, read_confirm_select-Shrinks, read_confirm_select_ok-Shrinks) depth 60

pub read_method-Shrinks : (n class method : ℕ) → Shrinks n (read_method class method)
unfolding read_method
read_method-Shrinks n class method =
    search
      (
        shrink_rules, read_connection_method-Shrinks, read_channel_method-Shrinks,
        read_exchange_method-Shrinks, read_queue_method-Shrinks, read_basic_method-Shrinks,
        read_tx_method-Shrinks, read_confirm_method-Shrinks,
      )
      depth 60
