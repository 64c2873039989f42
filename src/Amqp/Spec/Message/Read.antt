-- ===== src/Amqp/Spec/Message/Read.antt =====
-- The two `switch`es of `parseMethodFrame` (spec091.go): a method is read by its class and its number.
use gitbook_golang.Prelude.{ℕ, ◌==◌, if◌then◌else◌}
use gitbook_golang.Amqp.Spec.Connection.{
  read_connection_start, read_connection_start_ok, read_connection_secure,
  read_connection_secure_ok, read_connection_tune, read_connection_tune_ok, read_connection_open,
  read_connection_open_ok,
}
use gitbook_golang.Amqp.Spec.Consume.{
  read_basic_qos, read_basic_qos_ok, read_basic_consume, read_basic_consume_ok, read_basic_cancel,
  read_basic_cancel_ok, read_basic_get, read_basic_get_empty,
}
use gitbook_golang.Amqp.Spec.Content.{
  read_basic_publish, read_basic_return, read_basic_deliver, read_basic_get_ok,
}
use gitbook_golang.Amqp.Spec.Control.{
  read_connection_close, read_connection_close_ok, read_connection_blocked,
  read_connection_unblocked, read_channel_open, read_channel_open_ok, read_channel_flow,
  read_channel_flow_ok, read_channel_close, read_channel_close_ok,
}
use gitbook_golang.Amqp.Spec.Exchange.{
  read_exchange_declare, read_exchange_declare_ok, read_exchange_delete, read_exchange_delete_ok,
  read_exchange_bind, read_exchange_bind_ok, read_exchange_unbind, read_exchange_unbind_ok,
}
use gitbook_golang.Amqp.Spec.Message.{
  Message, connection_start, connection_start_ok, connection_secure, connection_secure_ok,
  connection_tune, connection_tune_ok, connection_open, connection_open_ok, connection_close,
  connection_close_ok, connection_blocked, connection_unblocked, channel_open, channel_open_ok,
  channel_flow, channel_flow_ok, channel_close, channel_close_ok, exchange_declare,
  exchange_declare_ok, exchange_delete, exchange_delete_ok, exchange_bind, exchange_bind_ok,
  exchange_unbind, exchange_unbind_ok, queue_declare, queue_declare_ok, queue_bind, queue_bind_ok,
  queue_unbind, queue_unbind_ok, queue_purge, queue_purge_ok, queue_delete, queue_delete_ok,
  basic_qos, basic_qos_ok, basic_consume, basic_consume_ok, basic_cancel, basic_cancel_ok,
  basic_publish, basic_return, basic_deliver, basic_get, basic_get_ok, basic_get_empty, basic_ack,
  basic_reject, basic_recover_async, basic_recover, basic_recover_ok, basic_nack, tx_select,
  tx_select_ok, tx_commit, tx_commit_ok, tx_rollback, tx_rollback_ok, confirm_select,
  confirm_select_ok,
}
use gitbook_golang.Amqp.Spec.Queue.{
  read_queue_declare, read_queue_declare_ok, read_queue_bind, read_queue_bind_ok, read_queue_unbind,
  read_queue_unbind_ok, read_queue_purge, read_queue_purge_ok, read_queue_delete,
  read_queue_delete_ok,
}
use gitbook_golang.Amqp.Spec.Settle.{
  read_basic_ack, read_basic_reject, read_basic_recover_async, read_basic_recover,
  read_basic_recover_ok, read_basic_nack, read_tx_select, read_tx_select_ok, read_tx_commit,
  read_tx_commit_ok, read_tx_rollback, read_tx_rollback_ok, read_confirm_select,
  read_confirm_select_ok,
}
use gitbook_golang.Amqp.Wire.{unknown_class, unknown_method, Reader, pure, fail, ◌>>=◌}

unfoldable pub read_connection_method : ℕ → Reader Message
read_connection_method method =
    if method == 10
    then (do m ← read_connection_start; pure (connection_start m))
    else if method == 11
    then (do m ← read_connection_start_ok; pure (connection_start_ok m))
    else if method == 20
    then (do m ← read_connection_secure; pure (connection_secure m))
    else if method == 21
    then (do m ← read_connection_secure_ok; pure (connection_secure_ok m))
    else if method == 30
    then (do m ← read_connection_tune; pure (connection_tune m))
    else if method == 31
    then (do m ← read_connection_tune_ok; pure (connection_tune_ok m))
    else if method == 40
    then (do m ← read_connection_open; pure (connection_open m))
    else if method == 41
    then (do m ← read_connection_open_ok; pure (connection_open_ok m))
    else if method == 50
    then (do m ← read_connection_close; pure (connection_close m))
    else if method == 51
    then (do m ← read_connection_close_ok; pure (connection_close_ok m))
    else if method == 60
    then (do m ← read_connection_blocked; pure (connection_blocked m))
    else if method == 61
    then (do m ← read_connection_unblocked; pure (connection_unblocked m))
    else fail (unknown_method method 10)

unfoldable pub read_channel_method : ℕ → Reader Message
read_channel_method method =
    if method == 10
    then (do m ← read_channel_open; pure (channel_open m))
    else if method == 11
    then (do m ← read_channel_open_ok; pure (channel_open_ok m))
    else if method == 20
    then (do m ← read_channel_flow; pure (channel_flow m))
    else if method == 21
    then (do m ← read_channel_flow_ok; pure (channel_flow_ok m))
    else if method == 40
    then (do m ← read_channel_close; pure (channel_close m))
    else if method == 41
    then (do m ← read_channel_close_ok; pure (channel_close_ok m))
    else fail (unknown_method method 20)

unfoldable pub read_exchange_method : ℕ → Reader Message
read_exchange_method method =
    if method == 10
    then (do m ← read_exchange_declare; pure (exchange_declare m))
    else if method == 11
    then (do m ← read_exchange_declare_ok; pure (exchange_declare_ok m))
    else if method == 20
    then (do m ← read_exchange_delete; pure (exchange_delete m))
    else if method == 21
    then (do m ← read_exchange_delete_ok; pure (exchange_delete_ok m))
    else if method == 30
    then (do m ← read_exchange_bind; pure (exchange_bind m))
    else if method == 31
    then (do m ← read_exchange_bind_ok; pure (exchange_bind_ok m))
    else if method == 40
    then (do m ← read_exchange_unbind; pure (exchange_unbind m))
    else if method == 51
    then (do m ← read_exchange_unbind_ok; pure (exchange_unbind_ok m))
    else fail (unknown_method method 40)

unfoldable pub read_queue_method : ℕ → Reader Message
read_queue_method method =
    if method == 10
    then (do m ← read_queue_declare; pure (queue_declare m))
    else if method == 11
    then (do m ← read_queue_declare_ok; pure (queue_declare_ok m))
    else if method == 20
    then (do m ← read_queue_bind; pure (queue_bind m))
    else if method == 21
    then (do m ← read_queue_bind_ok; pure (queue_bind_ok m))
    else if method == 50
    then (do m ← read_queue_unbind; pure (queue_unbind m))
    else if method == 51
    then (do m ← read_queue_unbind_ok; pure (queue_unbind_ok m))
    else if method == 30
    then (do m ← read_queue_purge; pure (queue_purge m))
    else if method == 31
    then (do m ← read_queue_purge_ok; pure (queue_purge_ok m))
    else if method == 40
    then (do m ← read_queue_delete; pure (queue_delete m))
    else if method == 41
    then (do m ← read_queue_delete_ok; pure (queue_delete_ok m))
    else fail (unknown_method method 50)

unfoldable pub read_basic_method : ℕ → Reader Message
read_basic_method method =
    if method == 10
    then (do m ← read_basic_qos; pure (basic_qos m))
    else if method == 11
    then (do m ← read_basic_qos_ok; pure (basic_qos_ok m))
    else if method == 20
    then (do m ← read_basic_consume; pure (basic_consume m))
    else if method == 21
    then (do m ← read_basic_consume_ok; pure (basic_consume_ok m))
    else if method == 30
    then (do m ← read_basic_cancel; pure (basic_cancel m))
    else if method == 31
    then (do m ← read_basic_cancel_ok; pure (basic_cancel_ok m))
    else if method == 40
    then (do m ← read_basic_publish; pure (basic_publish m))
    else if method == 50
    then (do m ← read_basic_return; pure (basic_return m))
    else if method == 60
    then (do m ← read_basic_deliver; pure (basic_deliver m))
    else if method == 70
    then (do m ← read_basic_get; pure (basic_get m))
    else if method == 71
    then (do m ← read_basic_get_ok; pure (basic_get_ok m))
    else if method == 72
    then (do m ← read_basic_get_empty; pure (basic_get_empty m))
    else if method == 80
    then (do m ← read_basic_ack; pure (basic_ack m))
    else if method == 90
    then (do m ← read_basic_reject; pure (basic_reject m))
    else if method == 100
    then (do m ← read_basic_recover_async; pure (basic_recover_async m))
    else if method == 110
    then (do m ← read_basic_recover; pure (basic_recover m))
    else if method == 111
    then (do m ← read_basic_recover_ok; pure (basic_recover_ok m))
    else if method == 120
    then (do m ← read_basic_nack; pure (basic_nack m))
    else fail (unknown_method method 60)

unfoldable pub read_tx_method : ℕ → Reader Message
read_tx_method method =
    if method == 10
    then (do m ← read_tx_select; pure (tx_select m))
    else if method == 11
    then (do m ← read_tx_select_ok; pure (tx_select_ok m))
    else if method == 20
    then (do m ← read_tx_commit; pure (tx_commit m))
    else if method == 21
    then (do m ← read_tx_commit_ok; pure (tx_commit_ok m))
    else if method == 30
    then (do m ← read_tx_rollback; pure (tx_rollback m))
    else if method == 31
    then (do m ← read_tx_rollback_ok; pure (tx_rollback_ok m))
    else fail (unknown_method method 90)

unfoldable pub read_confirm_method : ℕ → Reader Message
read_confirm_method method =
    if method == 10
    then (do m ← read_confirm_select; pure (confirm_select m))
    else if method == 11
    then (do m ← read_confirm_select_ok; pure (confirm_select_ok m))
    else fail (unknown_method method 85)

unfoldable pub read_method : ℕ → ℕ → Reader Message
read_method class method =
    if class == 10
    then read_connection_method method
    else if class == 20
    then read_channel_method method
    else if class == 40
    then read_exchange_method method
    else if class == 50
    then read_queue_method method
    else if class == 60
    then read_basic_method method
    else if class == 90
    then read_tx_method method
    else if class == 85
    then read_confirm_method method
    else fail (unknown_class class)
