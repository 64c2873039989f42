-- ===== src/Amqp/Spec/Message/Kinds.antt =====
-- `id` and `wait` of the interface `message` of types.go.
use gitbook_golang.Prelude.{ℕ, Bool}
use gitbook_golang.Amqp.Spec.Ids.{
  connection_start_id, connection_start_ok_id, connection_secure_id, connection_secure_ok_id,
  connection_tune_id, connection_tune_ok_id, connection_open_id, connection_open_ok_id,
  connection_close_id, connection_close_ok_id, connection_blocked_id, connection_unblocked_id,
  channel_open_id, channel_open_ok_id, channel_flow_id, channel_flow_ok_id, channel_close_id,
  channel_close_ok_id, exchange_declare_id, exchange_declare_ok_id, exchange_delete_id,
  exchange_delete_ok_id, exchange_bind_id, exchange_bind_ok_id, exchange_unbind_id,
  exchange_unbind_ok_id, queue_declare_id, queue_declare_ok_id, queue_bind_id, queue_bind_ok_id,
  queue_unbind_id, queue_unbind_ok_id, queue_purge_id, queue_purge_ok_id, queue_delete_id,
  queue_delete_ok_id, basic_qos_id, basic_qos_ok_id, basic_consume_id, basic_consume_ok_id,
  basic_cancel_id, basic_cancel_ok_id, basic_publish_id, basic_return_id, basic_deliver_id,
  basic_get_id, basic_get_ok_id, basic_get_empty_id, basic_ack_id, basic_reject_id,
  basic_recover_async_id, basic_recover_id, basic_recover_ok_id, basic_nack_id, tx_select_id,
  tx_select_ok_id, tx_commit_id, tx_commit_ok_id, tx_rollback_id, tx_rollback_ok_id,
  confirm_select_id, confirm_select_ok_id,
}
use gitbook_golang.Amqp.Spec.Message.{
  Message, connection_start, connection_start_ok, connection_secure, connection_secure_ok,
  connection_tune, connection_tune_ok, connection_open, connection_open_ok, connection_close,
  connection_close_ok, connection_blocked, connection_unblocked, channel_open, channel_open_ok,
  channel_flow, channel_flow_ok, channel_close, channel_close_ok, exchange_declare,
  exchange_declare_ok, exchange_delete, exchange_delete_ok, exchange_bind, exchange_bind_ok,
  exchange_unbind, exchange_unbind_ok, queue_declare, queue_declare_ok, queue_bind, queue_bind_ok,
  queue_unbind, queue_unbind_ok, queue_purge, queue_purge_ok, queue_delete, queue_delete_ok,
  basic_qos, basic_qos_ok, basic_consume, basic_consume_ok, basic_cancel, basic_cancel_ok,
  basic_publish, basic_return, basic_deliver, basic_get, basic_get_ok, basic_get_empty, basic_ack,
  basic_reject, basic_recover_async, basic_recover, basic_recover_ok, basic_nack, tx_select,
  tx_select_ok, tx_commit, tx_commit_ok, tx_rollback, tx_rollback_ok, confirm_select,
  confirm_select_ok,
}
use gitbook_golang.Amqp.Spec.Waits.{
  connection_start_wait, connection_start_ok_wait, connection_secure_wait,
  connection_secure_ok_wait, connection_tune_wait, connection_tune_ok_wait, connection_open_wait,
  connection_open_ok_wait, connection_close_wait, connection_close_ok_wait, connection_blocked_wait,
  connection_unblocked_wait, channel_open_wait, channel_open_ok_wait, channel_flow_wait,
  channel_flow_ok_wait, channel_close_wait, channel_close_ok_wait, exchange_declare_wait,
  exchange_declare_ok_wait, exchange_delete_wait, exchange_delete_ok_wait, exchange_bind_wait,
  exchange_bind_ok_wait, exchange_unbind_wait, exchange_unbind_ok_wait, queue_declare_wait,
  queue_declare_ok_wait, queue_bind_wait, queue_bind_ok_wait, queue_unbind_wait,
  queue_unbind_ok_wait, queue_purge_wait, queue_purge_ok_wait, queue_delete_wait,
  queue_delete_ok_wait, basic_qos_wait, basic_qos_ok_wait, basic_consume_wait,
  basic_consume_ok_wait, basic_cancel_wait, basic_cancel_ok_wait, basic_publish_wait,
  basic_return_wait, basic_deliver_wait, basic_get_wait, basic_get_ok_wait, basic_get_empty_wait,
  basic_ack_wait, basic_reject_wait, basic_recover_async_wait, basic_recover_wait,
  basic_recover_ok_wait, basic_nack_wait, tx_select_wait, tx_select_ok_wait, tx_commit_wait,
  tx_commit_ok_wait, tx_rollback_wait, tx_rollback_ok_wait, confirm_select_wait,
  confirm_select_ok_wait,
}

-- The class and the number.
unfoldable pub message_id : Message → ℕ × ℕ
message_id (connection_start m) = connection_start_id
message_id (connection_start_ok m) = connection_start_ok_id
message_id (connection_secure m) = connection_secure_id
message_id (connection_secure_ok m) = connection_secure_ok_id
message_id (connection_tune m) = connection_tune_id
message_id (connection_tune_ok m) = connection_tune_ok_id
message_id (connection_open m) = connection_open_id
message_id (connection_open_ok m) = connection_open_ok_id
message_id (connection_close m) = connection_close_id
message_id (connection_close_ok m) = connection_close_ok_id
message_id (connection_blocked m) = connection_blocked_id
message_id (connection_unblocked m) = connection_unblocked_id
message_id (channel_open m) = channel_open_id
message_id (channel_open_ok m) = channel_open_ok_id
message_id (channel_flow m) = channel_flow_id
message_id (channel_flow_ok m) = channel_flow_ok_id
message_id (channel_close m) = channel_close_id
message_id (channel_close_ok m) = channel_close_ok_id
message_id (exchange_declare m) = exchange_declare_id
message_id (exchange_declare_ok m) = exchange_declare_ok_id
message_id (exchange_delete m) = exchange_delete_id
message_id (exchange_delete_ok m) = exchange_delete_ok_id
message_id (exchange_bind m) = exchange_bind_id
message_id (exchange_bind_ok m) = exchange_bind_ok_id
message_id (exchange_unbind m) = exchange_unbind_id
message_id (exchange_unbind_ok m) = exchange_unbind_ok_id
message_id (queue_declare m) = queue_declare_id
message_id (queue_declare_ok m) = queue_declare_ok_id
message_id (queue_bind m) = queue_bind_id
message_id (queue_bind_ok m) = queue_bind_ok_id
message_id (queue_unbind m) = queue_unbind_id
message_id (queue_unbind_ok m) = queue_unbind_ok_id
message_id (queue_purge m) = queue_purge_id
message_id (queue_purge_ok m) = queue_purge_ok_id
message_id (queue_delete m) = queue_delete_id
message_id (queue_delete_ok m) = queue_delete_ok_id
message_id (basic_qos m) = basic_qos_id
message_id (basic_qos_ok m) = basic_qos_ok_id
message_id (basic_consume m) = basic_consume_id
message_id (basic_consume_ok m) = basic_consume_ok_id
message_id (basic_cancel m) = basic_cancel_id
message_id (basic_cancel_ok m) = basic_cancel_ok_id
message_id (basic_publish m) = basic_publish_id
message_id (basic_return m) = basic_return_id
message_id (basic_deliver m) = basic_deliver_id
message_id (basic_get m) = basic_get_id
message_id (basic_get_ok m) = basic_get_ok_id
message_id (basic_get_empty m) = basic_get_empty_id
message_id (basic_ack m) = basic_ack_id
message_id (basic_reject m) = basic_reject_id
message_id (basic_recover_async m) = basic_recover_async_id
message_id (basic_recover m) = basic_recover_id
message_id (basic_recover_ok m) = basic_recover_ok_id
message_id (basic_nack m) = basic_nack_id
message_id (tx_select m) = tx_select_id
message_id (tx_select_ok m) = tx_select_ok_id
message_id (tx_commit m) = tx_commit_id
message_id (tx_commit_ok m) = tx_commit_ok_id
message_id (tx_rollback m) = tx_rollback_id
message_id (tx_rollback_ok m) = tx_rollback_ok_id
message_id (confirm_select m) = confirm_select_id
message_id (confirm_select_ok m) = confirm_select_ok_id

-- Whether the sender waits for a reply.
unfoldable pub message_wait : Message → Bool
message_wait (connection_start m) = connection_start_wait
message_wait (connection_start_ok m) = connection_start_ok_wait
message_wait (connection_secure m) = connection_secure_wait
message_wait (connection_secure_ok m) = connection_secure_ok_wait
message_wait (connection_tune m) = connection_tune_wait
message_wait (connection_tune_ok m) = connection_tune_ok_wait
message_wait (connection_open m) = connection_open_wait
message_wait (connection_open_ok m) = connection_open_ok_wait
message_wait (connection_close m) = connection_close_wait
message_wait (connection_close_ok m) = connection_close_ok_wait
message_wait (connection_blocked m) = connection_blocked_wait
message_wait (connection_unblocked m) = connection_unblocked_wait
message_wait (channel_open m) = channel_open_wait
message_wait (channel_open_ok m) = channel_open_ok_wait
message_wait (channel_flow m) = channel_flow_wait
message_wait (channel_flow_ok m) = channel_flow_ok_wait
message_wait (channel_close m) = channel_close_wait
message_wait (channel_close_ok m) = channel_close_ok_wait
message_wait (exchange_declare m) = exchange_declare_wait m
message_wait (exchange_declare_ok m) = exchange_declare_ok_wait
message_wait (exchange_delete m) = exchange_delete_wait m
message_wait (exchange_delete_ok m) = exchange_delete_ok_wait
message_wait (exchange_bind m) = exchange_bind_wait m
message_wait (exchange_bind_ok m) = exchange_bind_ok_wait
message_wait (exchange_unbind m) = exchange_unbind_wait m
message_wait (exchange_unbind_ok m) = exchange_unbind_ok_wait
message_wait (queue_declare m) = queue_declare_wait m
message_wait (queue_declare_ok m) = queue_declare_ok_wait
message_wait (queue_bind m) = queue_bind_wait m
message_wait (queue_bind_ok m) = queue_bind_ok_wait
message_wait (queue_unbind m) = queue_unbind_wait
message_wait (queue_unbind_ok m) = queue_unbind_ok_wait
message_wait (queue_purge m) = queue_purge_wait m
message_wait (queue_purge_ok m) = queue_purge_ok_wait
message_wait (queue_delete m) = queue_delete_wait m
message_wait (queue_delete_ok m) = queue_delete_ok_wait
message_wait (basic_qos m) = basic_qos_wait
message_wait (basic_qos_ok m) = basic_qos_ok_wait
message_wait (basic_consume m) = basic_consume_wait m
message_wait (basic_consume_ok m) = basic_consume_ok_wait
message_wait (basic_cancel m) = basic_cancel_wait m
message_wait (basic_cancel_ok m) = basic_cancel_ok_wait
message_wait (basic_publish m) = basic_publish_wait
message_wait (basic_return m) = basic_return_wait
message_wait (basic_deliver m) = basic_deliver_wait
message_wait (basic_get m) = basic_get_wait
message_wait (basic_get_ok m) = basic_get_ok_wait
message_wait (basic_get_empty m) = basic_get_empty_wait
message_wait (basic_ack m) = basic_ack_wait
message_wait (basic_reject m) = basic_reject_wait
message_wait (basic_recover_async m) = basic_recover_async_wait
message_wait (basic_recover m) = basic_recover_wait
message_wait (basic_recover_ok m) = basic_recover_ok_wait
message_wait (basic_nack m) = basic_nack_wait
message_wait (tx_select m) = tx_select_wait
message_wait (tx_select_ok m) = tx_select_ok_wait
message_wait (tx_commit m) = tx_commit_wait
message_wait (tx_commit_ok m) = tx_commit_ok_wait
message_wait (tx_rollback m) = tx_rollback_wait
message_wait (tx_rollback_ok m) = tx_rollback_ok_wait
message_wait (confirm_select m) = confirm_select_wait
message_wait (confirm_select_ok m) = confirm_select_ok_wait
