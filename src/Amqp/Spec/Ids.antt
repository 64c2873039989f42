-- ===== src/Amqp/Spec/Ids.antt =====
-- The class and the number of each method, `id` of spec091.go.
use gitbook_golang.Prelude.{ℕ}

abbrev pub connection_start_id : ℕ × ℕ
connection_start_id = (10, 10)

abbrev pub connection_start_ok_id : ℕ × ℕ
connection_start_ok_id = (10, 11)

abbrev pub connection_secure_id : ℕ × ℕ
connection_secure_id = (10, 20)

abbrev pub connection_secure_ok_id : ℕ × ℕ
connection_secure_ok_id = (10, 21)

abbrev pub connection_tune_id : ℕ × ℕ
connection_tune_id = (10, 30)

abbrev pub connection_tune_ok_id : ℕ × ℕ
connection_tune_ok_id = (10, 31)

abbrev pub connection_open_id : ℕ × ℕ
connection_open_id = (10, 40)

abbrev pub connection_open_ok_id : ℕ × ℕ
connection_open_ok_id = (10, 41)

abbrev pub connection_close_id : ℕ × ℕ
connection_close_id = (10, 50)

abbrev pub connection_close_ok_id : ℕ × ℕ
connection_close_ok_id = (10, 51)

abbrev pub connection_blocked_id : ℕ × ℕ
connection_blocked_id = (10, 60)

abbrev pub connection_unblocked_id : ℕ × ℕ
connection_unblocked_id = (10, 61)

abbrev pub channel_open_id : ℕ × ℕ
channel_open_id = (20, 10)

abbrev pub channel_open_ok_id : ℕ × ℕ
channel_open_ok_id = (20, 11)

abbrev pub channel_flow_id : ℕ × ℕ
channel_flow_id = (20, 20)

abbrev pub channel_flow_ok_id : ℕ × ℕ
channel_flow_ok_id = (20, 21)

abbrev pub channel_close_id : ℕ × ℕ
channel_close_id = (20, 40)

abbrev pub channel_close_ok_id : ℕ × ℕ
channel_close_ok_id = (20, 41)

abbrev pub exchange_declare_id : ℕ × ℕ
exchange_declare_id = (40, 10)

abbrev pub exchange_declare_ok_id : ℕ × ℕ
exchange_declare_ok_id = (40, 11)

abbrev pub exchange_delete_id : ℕ × ℕ
exchange_delete_id = (40, 20)

abbrev pub exchange_delete_ok_id : ℕ × ℕ
exchange_delete_ok_id = (40, 21)

abbrev pub exchange_bind_id : ℕ × ℕ
exchange_bind_id = (40, 30)

abbrev pub exchange_bind_ok_id : ℕ × ℕ
exchange_bind_ok_id = (40, 31)

abbrev pub exchange_unbind_id : ℕ × ℕ
exchange_unbind_id = (40, 40)

abbrev pub exchange_unbind_ok_id : ℕ × ℕ
exchange_unbind_ok_id = (40, 51)

abbrev pub queue_declare_id : ℕ × ℕ
queue_declare_id = (50, 10)

abbrev pub queue_declare_ok_id : ℕ × ℕ
queue_declare_ok_id = (50, 11)

abbrev pub queue_bind_id : ℕ × ℕ
queue_bind_id = (50, 20)

abbrev pub queue_bind_ok_id : ℕ × ℕ
queue_bind_ok_id = (50, 21)

abbrev pub queue_unbind_id : ℕ × ℕ
queue_unbind_id = (50, 50)

abbrev pub queue_unbind_ok_id : ℕ × ℕ
queue_unbind_ok_id = (50, 51)

abbrev pub queue_purge_id : ℕ × ℕ
queue_purge_id = (50, 30)

abbrev pub queue_purge_ok_id : ℕ × ℕ
queue_purge_ok_id = (50, 31)

abbrev pub queue_delete_id : ℕ × ℕ
queue_delete_id = (50, 40)

abbrev pub queue_delete_ok_id : ℕ × ℕ
queue_delete_ok_id = (50, 41)

abbrev pub basic_qos_id : ℕ × ℕ
basic_qos_id = (60, 10)

abbrev pub basic_qos_ok_id : ℕ × ℕ
basic_qos_ok_id = (60, 11)

abbrev pub basic_consume_id : ℕ × ℕ
basic_consume_id = (60, 20)

abbrev pub basic_consume_ok_id : ℕ × ℕ
basic_consume_ok_id = (60, 21)

abbrev pub basic_cancel_id : ℕ × ℕ
basic_cancel_id = (60, 30)

abbrev pub basic_cancel_ok_id : ℕ × ℕ
basic_cancel_ok_id = (60, 31)

abbrev pub basic_publish_id : ℕ × ℕ
basic_publish_id = (60, 40)

abbrev pub basic_return_id : ℕ × ℕ
basic_return_id = (60, 50)

abbrev pub basic_deliver_id : ℕ × ℕ
basic_deliver_id = (60, 60)

abbrev pub basic_get_id : ℕ × ℕ
basic_get_id = (60, 70)

abbrev pub basic_get_ok_id : ℕ × ℕ
basic_get_ok_id = (60, 71)

abbrev pub basic_get_empty_id : ℕ × ℕ
basic_get_empty_id = (60, 72)

abbrev pub basic_ack_id : ℕ × ℕ
basic_ack_id = (60, 80)

abbrev pub basic_reject_id : ℕ × ℕ
basic_reject_id = (60, 90)

abbrev pub basic_recover_async_id : ℕ × ℕ
basic_recover_async_id = (60, 100)

abbrev pub basic_recover_id : ℕ × ℕ
basic_recover_id = (60, 110)

abbrev pub basic_recover_ok_id : ℕ × ℕ
basic_recover_ok_id = (60, 111)

abbrev pub basic_nack_id : ℕ × ℕ
basic_nack_id = (60, 120)

abbrev pub tx_select_id : ℕ × ℕ
tx_select_id = (90, 10)

abbrev pub tx_select_ok_id : ℕ × ℕ
tx_select_ok_id = (90, 11)

abbrev pub tx_commit_id : ℕ × ℕ
tx_commit_id = (90, 20)

abbrev pub tx_commit_ok_id : ℕ × ℕ
tx_commit_ok_id = (90, 21)

abbrev pub tx_rollback_id : ℕ × ℕ
tx_rollback_id = (90, 30)

abbrev pub tx_rollback_ok_id : ℕ × ℕ
tx_rollback_ok_id = (90, 31)

abbrev pub confirm_select_id : ℕ × ℕ
confirm_select_id = (85, 10)

abbrev pub confirm_select_ok_id : ℕ × ℕ
confirm_select_ok_id = (85, 11)
