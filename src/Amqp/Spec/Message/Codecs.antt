-- ===== src/Amqp/Spec/Message/Codecs.antt =====
-- Messages written, and read by their class and their number (spec091.go).
use gitbook_golang.Prelude.{◌^◌, ◌<◌, refl, [], arith}
use gitbook_golang.Amqp.Properties.{no_properties}
use gitbook_golang.Amqp.Spec.Connection.Codecs.{
  FitsConnectionStart, connection_start_codec, FitsConnectionStartOk, connection_start_ok_codec,
  FitsConnectionSecure, connection_secure_codec, FitsConnectionSecureOk, connection_secure_ok_codec,
  FitsConnectionTune, connection_tune_codec, FitsConnectionTuneOk, connection_tune_ok_codec,
  FitsConnectionOpen, connection_open_codec, FitsConnectionOpenOk, connection_open_ok_codec,
}
use gitbook_golang.Amqp.Spec.Consume.Codecs.{
  FitsBasicQos, basic_qos_codec, FitsBasicQosOk, basic_qos_ok_codec, FitsBasicConsume,
  basic_consume_codec, FitsBasicConsumeOk, basic_consume_ok_codec, FitsBasicCancel,
  basic_cancel_codec, FitsBasicCancelOk, basic_cancel_ok_codec, FitsBasicGet, basic_get_codec,
  FitsBasicGetEmpty, basic_get_empty_codec,
}
use gitbook_golang.Amqp.Spec.Content.Codecs.{
  FitsBasicPublish, basic_publish_codec, FitsBasicReturn, basic_return_codec, FitsBasicDeliver,
  basic_deliver_codec, FitsBasicGetOk, basic_get_ok_codec,
}
use gitbook_golang.Amqp.Spec.Control.Codecs.{
  FitsConnectionClose, connection_close_codec, FitsConnectionCloseOk, connection_close_ok_codec,
  FitsConnectionBlocked, connection_blocked_codec, FitsConnectionUnblocked,
  connection_unblocked_codec, FitsChannelOpen, channel_open_codec, FitsChannelOpenOk,
  channel_open_ok_codec, FitsChannelFlow, channel_flow_codec, FitsChannelFlowOk,
  channel_flow_ok_codec, FitsChannelClose, channel_close_codec, FitsChannelCloseOk,
  channel_close_ok_codec,
}
use gitbook_golang.Amqp.Spec.Exchange.Codecs.{
  FitsExchangeDeclare, exchange_declare_codec, FitsExchangeDeclareOk, exchange_declare_ok_codec,
  FitsExchangeDelete, exchange_delete_codec, FitsExchangeDeleteOk, exchange_delete_ok_codec,
  FitsExchangeBind, exchange_bind_codec, FitsExchangeBindOk, exchange_bind_ok_codec,
  FitsExchangeUnbind, exchange_unbind_codec, FitsExchangeUnbindOk, exchange_unbind_ok_codec,
}
use gitbook_golang.Amqp.Spec.Message.{
  Message, connection_start, connection_start_ok, connection_secure, connection_secure_ok,
  connection_tune, connection_tune_ok, connection_open, connection_open_ok, connection_close,
  connection_close_ok, connection_blocked, connection_unblocked, channel_open, channel_open_ok,
  channel_flow, channel_flow_ok, channel_close, channel_close_ok, exchange_declare,
  exchange_declare_ok, exchange_delete, exchange_delete_ok, exchange_bind, exchange_bind_ok,
  exchange_unbind, exchange_unbind_ok, queue_declare, queue_declare_ok, queue_bind, queue_bind_ok,
  queue_unbind, queue_unbind_ok, queue_purge, queue_purge_ok, queue_delete, queue_delete_ok,
  basic_qos, basic_qos_ok, basic_consume, basic_consume_ok, basic_cancel, basic_cancel_ok,
  basic_publish, basic_return, basic_deliver, basic_get, basic_get_ok, basic_get_empty, basic_ack,
  basic_reject, basic_recover_async, basic_recover, basic_recover_ok, basic_nack, tx_select,
  tx_select_ok, tx_commit, tx_commit_ok, tx_rollback, tx_rollback_ok, confirm_select,
  confirm_select_ok, set_content,
}
use gitbook_golang.Amqp.Spec.Message.Kinds.{message_id}
use gitbook_golang.Amqp.Spec.Message.Read.{
  read_connection_method, read_channel_method, read_exchange_method, read_queue_method,
  read_basic_method, read_tx_method, read_confirm_method, read_method,
}
use gitbook_golang.Amqp.Spec.Message.Write.{write_message}
use gitbook_golang.Amqp.Spec.Queue.Codecs.{
  FitsQueueDeclare, queue_declare_codec, FitsQueueDeclareOk, queue_declare_ok_codec, FitsQueueBind,
  queue_bind_codec, FitsQueueBindOk, queue_bind_ok_codec, FitsQueueUnbind, queue_unbind_codec,
  FitsQueueUnbindOk, queue_unbind_ok_codec, FitsQueuePurge, queue_purge_codec, FitsQueuePurgeOk,
  queue_purge_ok_codec, FitsQueueDelete, queue_delete_codec, FitsQueueDeleteOk,
  queue_delete_ok_codec,
}
use gitbook_golang.Amqp.Spec.Settle.Codecs.{
  FitsBasicAck, basic_ack_codec, FitsBasicReject, basic_reject_codec, FitsBasicRecoverAsync,
  basic_recover_async_codec, FitsBasicRecover, basic_recover_codec, FitsBasicRecoverOk,
  basic_recover_ok_codec, FitsBasicNack, basic_nack_codec, FitsTxSelect, tx_select_codec,
  FitsTxSelectOk, tx_select_ok_codec, FitsTxCommit, tx_commit_codec, FitsTxCommitOk,
  tx_commit_ok_codec, FitsTxRollback, tx_rollback_codec, FitsTxRollbackOk, tx_rollback_ok_codec,
  FitsConfirmSelect, confirm_select_codec, FitsConfirmSelectOk, confirm_select_ok_codec,
}
use gitbook_golang.Amqp.Wire.Codec.{Codec, Codec-map}

abbrev pub FitsMessage : Message → Type 0
FitsMessage (connection_start m) = FitsConnectionStart m
FitsMessage (connection_start_ok m) = FitsConnectionStartOk m
FitsMessage (connection_secure m) = FitsConnectionSecure m
FitsMessage (connection_secure_ok m) = FitsConnectionSecureOk m
FitsMessage (connection_tune m) = FitsConnectionTune m
FitsMessage (connection_tune_ok m) = FitsConnectionTuneOk m
FitsMessage (connection_open m) = FitsConnectionOpen m
FitsMessage (connection_open_ok m) = FitsConnectionOpenOk m
FitsMessage (connection_close m) = FitsConnectionClose m
FitsMessage (connection_close_ok m) = FitsConnectionCloseOk m
FitsMessage (connection_blocked m) = FitsConnectionBlocked m
FitsMessage (connection_unblocked m) = FitsConnectionUnblocked m
FitsMessage (channel_open m) = FitsChannelOpen m
FitsMessage (channel_open_ok m) = FitsChannelOpenOk m
FitsMessage (channel_flow m) = FitsChannelFlow m
FitsMessage (channel_flow_ok m) = FitsChannelFlowOk m
FitsMessage (channel_close m) = FitsChannelClose m
FitsMessage (channel_close_ok m) = FitsChannelCloseOk m
FitsMessage (exchange_declare m) = FitsExchangeDeclare m
FitsMessage (exchange_declare_ok m) = FitsExchangeDeclareOk m
FitsMessage (exchange_delete m) = FitsExchangeDelete m
FitsMessage (exchange_delete_ok m) = FitsExchangeDeleteOk m
FitsMessage (exchange_bind m) = FitsExchangeBind m
FitsMessage (exchange_bind_ok m) = FitsExchangeBindOk m
FitsMessage (exchange_unbind m) = FitsExchangeUnbind m
FitsMessage (exchange_unbind_ok m) = FitsExchangeUnbindOk m
FitsMessage (queue_declare m) = FitsQueueDeclare m
FitsMessage (queue_declare_ok m) = FitsQueueDeclareOk m
FitsMessage (queue_bind m) = FitsQueueBind m
FitsMessage (queue_bind_ok m) = FitsQueueBindOk m
FitsMessage (queue_unbind m) = FitsQueueUnbind m
FitsMessage (queue_unbind_ok m) = FitsQueueUnbindOk m
FitsMessage (queue_purge m) = FitsQueuePurge m
FitsMessage (queue_purge_ok m) = FitsQueuePurgeOk m
FitsMessage (queue_delete m) = FitsQueueDelete m
FitsMessage (queue_delete_ok m) = FitsQueueDeleteOk m
FitsMessage (basic_qos m) = FitsBasicQos m
FitsMessage (basic_qos_ok m) = FitsBasicQosOk m
FitsMessage (basic_consume m) = FitsBasicConsume m
FitsMessage (basic_consume_ok m) = FitsBasicConsumeOk m
FitsMessage (basic_cancel m) = FitsBasicCancel m
FitsMessage (basic_cancel_ok m) = FitsBasicCancelOk m
FitsMessage (basic_publish m) = FitsBasicPublish m
FitsMessage (basic_return m) = FitsBasicReturn m
FitsMessage (basic_deliver m) = FitsBasicDeliver m
FitsMessage (basic_get m) = FitsBasicGet m
FitsMessage (basic_get_ok m) = FitsBasicGetOk m
FitsMessage (basic_get_empty m) = FitsBasicGetEmpty m
FitsMessage (basic_ack m) = FitsBasicAck m
FitsMessage (basic_reject m) = FitsBasicReject m
FitsMessage (basic_recover_async m) = FitsBasicRecoverAsync m
FitsMessage (basic_recover m) = FitsBasicRecover m
FitsMessage (basic_recover_ok m) = FitsBasicRecoverOk m
FitsMessage (basic_nack m) = FitsBasicNack m
FitsMessage (tx_select m) = FitsTxSelect m
FitsMessage (tx_select_ok m) = FitsTxSelectOk m
FitsMessage (tx_commit m) = FitsTxCommit m
FitsMessage (tx_commit_ok m) = FitsTxCommitOk m
FitsMessage (tx_rollback m) = FitsTxRollback m
FitsMessage (tx_rollback_ok m) = FitsTxRollbackOk m
FitsMessage (confirm_select m) = FitsConfirmSelect m
FitsMessage (confirm_select_ok m) = FitsConfirmSelectOk m

-- The message as it is before its content comes.
abbrev pub without_content : Message → Message
without_content m = set_content m no_properties []

-- Each of the 62 methods, with fields within their widths, is written without an error, and reading
-- the bytes under the class and the number of the method gives the method back, with no content yet,
-- and leaves what is behind.
pub message_codec :
    (m : Message)
    → FitsMessage m
    → Codec (write_message m) (read_method (message_id m).0 (message_id m).1) (without_content m)
unfolding write_message message_id set_content read_method read_connection_method
    read_channel_method read_exchange_method read_queue_method read_basic_method read_tx_method
    read_confirm_method
message_codec (connection_start m) h = Codec-map (connection_start_codec m h) _ (λ rest. refl)
message_codec (connection_start_ok m) h = Codec-map (connection_start_ok_codec m h) _ (λ rest. refl)
message_codec (connection_secure m) h = Codec-map (connection_secure_codec m h) _ (λ rest. refl)
message_codec (connection_secure_ok m) h =
    Codec-map (connection_secure_ok_codec m h) _ (λ rest. refl)
message_codec (connection_tune m) h = Codec-map (connection_tune_codec m h) _ (λ rest. refl)
message_codec (connection_tune_ok m) h = Codec-map (connection_tune_ok_codec m h) _ (λ rest. refl)
message_codec (connection_open m) h = Codec-map (connection_open_codec m h) _ (λ rest. refl)
message_codec (connection_open_ok m) h = Codec-map (connection_open_ok_codec m h) _ (λ rest. refl)
message_codec (connection_close m) h = Codec-map (connection_close_codec m h) _ (λ rest. refl)
message_codec (connection_close_ok m) h = Codec-map (connection_close_ok_codec m h) _ (λ rest. refl)
message_codec (connection_blocked m) h = Codec-map (connection_blocked_codec m h) _ (λ rest. refl)
message_codec (connection_unblocked m) h =
    Codec-map (connection_unblocked_codec m h) _ (λ rest. refl)
message_codec (channel_open m) h = Codec-map (channel_open_codec m h) _ (λ rest. refl)
message_codec (channel_open_ok m) h = Codec-map (channel_open_ok_codec m h) _ (λ rest. refl)
message_codec (channel_flow m) h = Codec-map (channel_flow_codec m h) _ (λ rest. refl)
message_codec (channel_flow_ok m) h = Codec-map (channel_flow_ok_codec m h) _ (λ rest. refl)
message_codec (channel_close m) h = Codec-map (channel_close_codec m h) _ (λ rest. refl)
message_codec (channel_close_ok m) h = Codec-map (channel_close_ok_codec m h) _ (λ rest. refl)
message_codec (exchange_declare m) h = Codec-map (exchange_declare_codec m h) _ (λ rest. refl)
message_codec (exchange_declare_ok m) h = Codec-map (exchange_declare_ok_codec m h) _ (λ rest. refl)
message_codec (exchange_delete m) h = Codec-map (exchange_delete_codec m h) _ (λ rest. refl)
message_codec (exchange_delete_ok m) h = Codec-map (exchange_delete_ok_codec m h) _ (λ rest. refl)
message_codec (exchange_bind m) h = Codec-map (exchange_bind_codec m h) _ (λ rest. refl)
message_codec (exchange_bind_ok m) h = Codec-map (exchange_bind_ok_codec m h) _ (λ rest. refl)
message_codec (exchange_unbind m) h = Codec-map (exchange_unbind_codec m h) _ (λ rest. refl)
message_codec (exchange_unbind_ok m) h = Codec-map (exchange_unbind_ok_codec m h) _ (λ rest. refl)
message_codec (queue_declare m) h = Codec-map (queue_declare_codec m h) _ (λ rest. refl)
message_codec (queue_declare_ok m) h = Codec-map (queue_declare_ok_codec m h) _ (λ rest. refl)
message_codec (queue_bind m) h = Codec-map (queue_bind_codec m h) _ (λ rest. refl)
message_codec (queue_bind_ok m) h = Codec-map (queue_bind_ok_codec m h) _ (λ rest. refl)
message_codec (queue_unbind m) h = Codec-map (queue_unbind_codec m h) _ (λ rest. refl)
message_codec (queue_unbind_ok m) h = Codec-map (queue_unbind_ok_codec m h) _ (λ rest. refl)
message_codec (queue_purge m) h = Codec-map (queue_purge_codec m h) _ (λ rest. refl)
message_codec (queue_purge_ok m) h = Codec-map (queue_purge_ok_codec m h) _ (λ rest. refl)
message_codec (queue_delete m) h = Codec-map (queue_delete_codec m h) _ (λ rest. refl)
message_codec (queue_delete_ok m) h = Codec-map (queue_delete_ok_codec m h) _ (λ rest. refl)
message_codec (basic_qos m) h = Codec-map (basic_qos_codec m h) _ (λ rest. refl)
message_codec (basic_qos_ok m) h = Codec-map (basic_qos_ok_codec m h) _ (λ rest. refl)
message_codec (basic_consume m) h = Codec-map (basic_consume_codec m h) _ (λ rest. refl)
message_codec (basic_consume_ok m) h = Codec-map (basic_consume_ok_codec m h) _ (λ rest. refl)
message_codec (basic_cancel m) h = Codec-map (basic_cancel_codec m h) _ (λ rest. refl)
message_codec (basic_cancel_ok m) h = Codec-map (basic_cancel_ok_codec m h) _ (λ rest. refl)
message_codec (basic_publish m) h = Codec-map (basic_publish_codec m h) _ (λ rest. refl)
message_codec (basic_return m) h = Codec-map (basic_return_codec m h) _ (λ rest. refl)
message_codec (basic_deliver m) h = Codec-map (basic_deliver_codec m h) _ (λ rest. refl)
message_codec (basic_get m) h = Codec-map (basic_get_codec m h) _ (λ rest. refl)
message_codec (basic_get_ok m) h = Codec-map (basic_get_ok_codec m h) _ (λ rest. refl)
message_codec (basic_get_empty m) h = Codec-map (basic_get_empty_codec m h) _ (λ rest. refl)
message_codec (basic_ack m) h = Codec-map (basic_ack_codec m h) _ (λ rest. refl)
message_codec (basic_reject m) h = Codec-map (basic_reject_codec m h) _ (λ rest. refl)
message_codec (basic_recover_async m) h = Codec-map (basic_recover_async_codec m h) _ (λ rest. refl)
message_codec (basic_recover m) h = Codec-map (basic_recover_codec m h) _ (λ rest. refl)
message_codec (basic_recover_ok m) h = Codec-map (basic_recover_ok_codec m h) _ (λ rest. refl)
message_codec (basic_nack m) h = Codec-map (basic_nack_codec m h) _ (λ rest. refl)
message_codec (tx_select m) h = Codec-map (tx_select_codec m h) _ (λ rest. refl)
message_codec (tx_select_ok m) h = Codec-map (tx_select_ok_codec m h) _ (λ rest. refl)
message_codec (tx_commit m) h = Codec-map (tx_commit_codec m h) _ (λ rest. refl)
message_codec (tx_commit_ok m) h = Codec-map (tx_commit_ok_codec m h) _ (λ rest. refl)
message_codec (tx_rollback m) h = Codec-map (tx_rollback_codec m h) _ (λ rest. refl)
message_codec (tx_rollback_ok m) h = Codec-map (tx_rollback_ok_codec m h) _ (λ rest. refl)
message_codec (confirm_select m) h = Codec-map (confirm_select_codec m h) _ (λ rest. refl)
message_codec (confirm_select_ok m) h = Codec-map (confirm_select_ok_codec m h) _ (λ rest. refl)

pub class-lt : (m : Message) → (message_id m).0 < 2 ^ 16
unfolding message_id
class-lt (connection_start m) = omega arith
class-lt _ = omega arith

pub method-lt : (m : Message) → (message_id m).1 < 2 ^ 16
unfolding message_id
method-lt (connection_start m) = omega arith
method-lt _ = omega arith
