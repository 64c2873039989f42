-- ===== src/Amqp/Spec/Waits.antt =====
-- Whether the sender of a method waits for a reply, `wait` of spec091.go.
use gitbook_golang.Prelude.{Bool, true, false, ◌&&◌, not}
use gitbook_golang.Amqp.Spec.Consume.{BasicConsume, BasicCancel}
use gitbook_golang.Amqp.Spec.Exchange.{
  ExchangeDeclare, ExchangeDelete, ExchangeBind, ExchangeUnbind,
}
use gitbook_golang.Amqp.Spec.Queue.{QueueDeclare, QueueBind, QueuePurge, QueueDelete}

abbrev pub connection_start_wait : Bool
connection_start_wait = true

abbrev pub connection_start_ok_wait : Bool
connection_start_ok_wait = true

abbrev pub connection_secure_wait : Bool
connection_secure_wait = true

abbrev pub connection_secure_ok_wait : Bool
connection_secure_ok_wait = true

abbrev pub connection_tune_wait : Bool
connection_tune_wait = true

abbrev pub connection_tune_ok_wait : Bool
connection_tune_ok_wait = true

abbrev pub connection_open_wait : Bool
connection_open_wait = true

abbrev pub connection_open_ok_wait : Bool
connection_open_ok_wait = true

abbrev pub connection_close_wait : Bool
connection_close_wait = true

abbrev pub connection_close_ok_wait : Bool
connection_close_ok_wait = true

abbrev pub connection_blocked_wait : Bool
connection_blocked_wait = false

abbrev pub connection_unblocked_wait : Bool
connection_unblocked_wait = false

abbrev pub channel_open_wait : Bool
channel_open_wait = true

abbrev pub channel_open_ok_wait : Bool
channel_open_ok_wait = true

abbrev pub channel_flow_wait : Bool
channel_flow_wait = true

abbrev pub channel_flow_ok_wait : Bool
channel_flow_ok_wait = false

abbrev pub channel_close_wait : Bool
channel_close_wait = true

abbrev pub channel_close_ok_wait : Bool
channel_close_ok_wait = true

abbrev pub exchange_declare_wait : ExchangeDeclare → Bool
exchange_declare_wait msg = true && not msg.no_wait

abbrev pub exchange_declare_ok_wait : Bool
exchange_declare_ok_wait = true

abbrev pub exchange_delete_wait : ExchangeDelete → Bool
exchange_delete_wait msg = true && not msg.no_wait

abbrev pub exchange_delete_ok_wait : Bool
exchange_delete_ok_wait = true

abbrev pub exchange_bind_wait : ExchangeBind → Bool
exchange_bind_wait msg = true && not msg.no_wait

abbrev pub exchange_bind_ok_wait : Bool
exchange_bind_ok_wait = true

abbrev pub exchange_unbind_wait : ExchangeUnbind → Bool
exchange_unbind_wait msg = true && not msg.no_wait

abbrev pub exchange_unbind_ok_wait : Bool
exchange_unbind_ok_wait = true

abbrev pub queue_declare_wait : QueueDeclare → Bool
queue_declare_wait msg = true && not msg.no_wait

abbrev pub queue_declare_ok_wait : Bool
queue_declare_ok_wait = true

abbrev pub queue_bind_wait : QueueBind → Bool
queue_bind_wait msg = true && not msg.no_wait

abbrev pub queue_bind_ok_wait : Bool
queue_bind_ok_wait = true

abbrev pub queue_unbind_wait : Bool
queue_unbind_wait = true

abbrev pub queue_unbind_ok_wait : Bool
queue_unbind_ok_wait = true

abbrev pub queue_purge_wait : QueuePurge → Bool
queue_purge_wait msg = true && not msg.no_wait

abbrev pub queue_purge_ok_wait : Bool
queue_purge_ok_wait = true

abbrev pub queue_delete_wait : QueueDelete → Bool
queue_delete_wait msg = true && not msg.no_wait

abbrev pub queue_delete_ok_wait : Bool
queue_delete_ok_wait = true

abbrev pub basic_qos_wait : Bool
basic_qos_wait = true

abbrev pub basic_qos_ok_wait : Bool
basic_qos_ok_wait = true

abbrev pub basic_consume_wait : BasicConsume → Bool
basic_consume_wait msg = true && not msg.no_wait

abbrev pub basic_consume_ok_wait : Bool
basic_consume_ok_wait = true

abbrev pub basic_cancel_wait : BasicCancel → Bool
basic_cancel_wait msg = true && not msg.no_wait

abbrev pub basic_cancel_ok_wait : Bool
basic_cancel_ok_wait = true

abbrev pub basic_publish_wait : Bool
basic_publish_wait = false

abbrev pub basic_return_wait : Bool
basic_return_wait = false

abbrev pub basic_deliver_wait : Bool
basic_deliver_wait = false

abbrev pub basic_get_wait : Bool
basic_get_wait = true

abbrev pub basic_get_ok_wait : Bool
basic_get_ok_wait = true

abbrev pub basic_get_empty_wait : Bool
basic_get_empty_wait = true

abbrev pub basic_ack_wait : Bool
basic_ack_wait = false

abbrev pub basic_reject_wait : Bool
basic_reject_wait = false

abbrev pub basic_recover_async_wait : Bool
basic_recover_async_wait = false

abbrev pub basic_recover_wait : Bool
basic_recover_wait = true

abbrev pub basic_recover_ok_wait : Bool
basic_recover_ok_wait = true

abbrev pub basic_nack_wait : Bool
basic_nack_wait = false

abbrev pub tx_select_wait : Bool
tx_select_wait = true

abbrev pub tx_select_ok_wait : Bool
tx_select_ok_wait = true

abbrev pub tx_commit_wait : Bool
tx_commit_wait = true

abbrev pub tx_commit_ok_wait : Bool
tx_commit_ok_wait = true

abbrev pub tx_rollback_wait : Bool
tx_rollback_wait = true

abbrev pub tx_rollback_ok_wait : Bool
tx_rollback_ok_wait = true

abbrev pub confirm_select_wait : Bool
confirm_select_wait = true

abbrev pub confirm_select_ok_wait : Bool
confirm_select_ok_wait = true
