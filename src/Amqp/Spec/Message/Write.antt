-- ===== src/Amqp/Spec/Message/Write.antt =====
-- The `write` of each struct behind the interface.
use gitbook_golang.Amqp.Spec.Connection.{
  write_connection_start, write_connection_start_ok, write_connection_secure,
  write_connection_secure_ok, write_connection_tune, write_connection_tune_ok,
  write_connection_open, write_connection_open_ok,
}
use gitbook_golang.Amqp.Spec.Consume.{
  write_basic_qos, write_basic_qos_ok, write_basic_consume, write_basic_consume_ok,
  write_basic_cancel, write_basic_cancel_ok, write_basic_get, write_basic_get_empty,
}
use gitbook_golang.Amqp.Spec.Content.{
  write_basic_publish, write_basic_return, write_basic_deliver, write_basic_get_ok,
}
use gitbook_golang.Amqp.Spec.Control.{
  write_connection_close, write_connection_close_ok, write_connection_blocked,
  write_connection_unblocked, write_channel_open, write_channel_open_ok, write_channel_flow,
  write_channel_flow_ok, write_channel_close, write_channel_close_ok,
}
use gitbook_golang.Amqp.Spec.Exchange.{
  write_exchange_declare, write_exchange_declare_ok, write_exchange_delete,
  write_exchange_delete_ok, write_exchange_bind, write_exchange_bind_ok, write_exchange_unbind,
  write_exchange_unbind_ok,
}
use gitbook_golang.Amqp.Spec.Message.{
  Message, connection_start, connection_start_ok, connection_secure, connection_secure_ok,
  connection_tune, connection_tune_ok, connection_open, connection_open_ok, connection_close,
  connection_close_ok, connection_blocked, connection_unblocked, channel_open, channel_open_ok,
  channel_flow, channel_flow_ok, channel_close, channel_close_ok, exchange_declare,
  exchange_declare_ok, exchange_delete, exchange_delete_ok, exchange_bind, exchange_bind_ok,
  exchange_unbind, exchange_unbind_ok, queue_declare, queue_declare_ok, queue_bind, queue_bind_ok,
  queue_unbind, queue_unbind_ok, queue_purge, queue_purge_ok, queue_delete, queue_delete_ok,
  basic_qos, basic_qos_ok, basic_consume, basic_consume_ok, basic_cancel, basic_cancel_ok,
  basic_publish, basic_return, basic_deliver, basic_get, basic_get_ok, basic_get_empty, basic_ack,
  basic_reject, basic_recover_async, basic_recover, basic_recover_ok, basic_nack, tx_select,
  tx_select_ok, tx_commit, tx_commit_ok, tx_rollback, tx_rollback_ok, confirm_select,
  confirm_select_ok,
}
use gitbook_golang.Amqp.Spec.Queue.{
  write_queue_declare, write_queue_declare_ok, write_queue_bind, write_queue_bind_ok,
  write_queue_unbind, write_queue_unbind_ok, write_queue_purge, write_queue_purge_ok,
  write_queue_delete, write_queue_delete_ok,
}
use gitbook_golang.Amqp.Spec.Settle.{
  write_basic_ack, write_basic_reject, write_basic_recover_async, write_basic_recover,
  write_basic_recover_ok, write_basic_nack, write_tx_select, write_tx_select_ok, write_tx_commit,
  write_tx_commit_ok, write_tx_rollback, write_tx_rollback_ok, write_confirm_select,
  write_confirm_select_ok,
}
use gitbook_golang.Amqp.Wire.{Written}

unfoldable pub write_message : Message → Written
write_message (connection_start m) = write_connection_start m
write_message (connection_start_ok m) = write_connection_start_ok m
write_message (connection_secure m) = write_connection_secure m
write_message (connection_secure_ok m) = write_connection_secure_ok m
write_message (connection_tune m) = write_connection_tune m
write_message (connection_tune_ok m) = write_connection_tune_ok m
write_message (connection_open m) = write_connection_open m
write_message (connection_open_ok m) = write_connection_open_ok m
write_message (connection_close m) = write_connection_close m
write_message (connection_close_ok m) = write_connection_close_ok m
write_message (connection_blocked m) = write_connection_blocked m
write_message (connection_unblocked m) = write_connection_unblocked m
write_message (channel_open m) = write_channel_open m
write_message (channel_open_ok m) = write_channel_open_ok m
write_message (channel_flow m) = write_channel_flow m
write_message (channel_flow_ok m) = write_channel_flow_ok m
write_message (channel_close m) = write_channel_close m
write_message (channel_close_ok m) = write_channel_close_ok m
write_message (exchange_declare m) = write_exchange_declare m
write_message (exchange_declare_ok m) = write_exchange_declare_ok m
write_message (exchange_delete m) = write_exchange_delete m
write_message (exchange_delete_ok m) = write_exchange_delete_ok m
write_message (exchange_bind m) = write_exchange_bind m
write_message (exchange_bind_ok m) = write_exchange_bind_ok m
write_message (exchange_unbind m) = write_exchange_unbind m
write_message (exchange_unbind_ok m) = write_exchange_unbind_ok m
write_message (queue_declare m) = write_queue_declare m
write_message (queue_declare_ok m) = write_queue_declare_ok m
write_message (queue_bind m) = write_queue_bind m
write_message (queue_bind_ok m) = write_queue_bind_ok m
write_message (queue_unbind m) = write_queue_unbind m
write_message (queue_unbind_ok m) = write_queue_unbind_ok m
write_message (queue_purge m) = write_queue_purge m
write_message (queue_purge_ok m) = write_queue_purge_ok m
write_message (queue_delete m) = write_queue_delete m
write_message (queue_delete_ok m) = write_queue_delete_ok m
write_message (basic_qos m) = write_basic_qos m
write_message (basic_qos_ok m) = write_basic_qos_ok m
write_message (basic_consume m) = write_basic_consume m
write_message (basic_consume_ok m) = write_basic_consume_ok m
write_message (basic_cancel m) = write_basic_cancel m
write_message (basic_cancel_ok m) = write_basic_cancel_ok m
write_message (basic_publish m) = write_basic_publish m
write_message (basic_return m) = write_basic_return m
write_message (basic_deliver m) = write_basic_deliver m
write_message (basic_get m) = write_basic_get m
write_message (basic_get_ok m) = write_basic_get_ok m
write_message (basic_get_empty m) = write_basic_get_empty m
write_message (basic_ack m) = write_basic_ack m
write_message (basic_reject m) = write_basic_reject m
write_message (basic_recover_async m) = write_basic_recover_async m
write_message (basic_recover m) = write_basic_recover m
write_message (basic_recover_ok m) = write_basic_recover_ok m
write_message (basic_nack m) = write_basic_nack m
write_message (tx_select m) = write_tx_select m
write_message (tx_select_ok m) = write_tx_select_ok m
write_message (tx_commit m) = write_tx_commit m
write_message (tx_commit_ok m) = write_tx_commit_ok m
write_message (tx_rollback m) = write_tx_rollback m
write_message (tx_rollback_ok m) = write_tx_rollback_ok m
write_message (confirm_select m) = write_confirm_select m
write_message (confirm_select_ok m) = write_confirm_select_ok m
