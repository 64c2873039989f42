-- ===== src/Amqp/Spec/Message.antt =====
-- `message` of types.go: the pointer to any of the structs, with its `id` and `wait`.
pub mod Kinds
pub mod Write
pub mod Read
pub mod Codecs
pub mod Ends
pub mod Ids
pub mod Stable
use gitbook_golang.Prelude.{Bool, true, false, Option, none, some}
use gitbook_golang.Amqp.Properties.{Properties}
use gitbook_golang.Amqp.Spec.Connection.{
  ConnectionStart, ConnectionStartOk, ConnectionSecure, ConnectionSecureOk, ConnectionTune,
  ConnectionTuneOk, ConnectionOpen, ConnectionOpenOk,
}
use gitbook_golang.Amqp.Spec.Consume.{
  BasicQos, BasicQosOk, BasicConsume, BasicConsumeOk, BasicCancel, BasicCancelOk, BasicGet,
  BasicGetEmpty,
}
use gitbook_golang.Amqp.Spec.Content.{BasicPublish, BasicReturn, BasicDeliver, BasicGetOk}
use gitbook_golang.Amqp.Spec.Control.{
  ConnectionClose, ConnectionCloseOk, ConnectionBlocked, ConnectionUnblocked, ChannelOpen,
  ChannelOpenOk, ChannelFlow, ChannelFlowOk, ChannelClose, ChannelCloseOk,
}
use gitbook_golang.Amqp.Spec.Exchange.{
  ExchangeDeclare, ExchangeDeclareOk, ExchangeDelete, ExchangeDeleteOk, ExchangeBind,
  ExchangeBindOk, ExchangeUnbind, ExchangeUnbindOk,
}
use gitbook_golang.Amqp.Spec.Queue.{
  QueueDeclare, QueueDeclareOk, QueueBind, QueueBindOk, QueueUnbind, QueueUnbindOk, QueuePurge,
  QueuePurgeOk, QueueDelete, QueueDeleteOk,
}
use gitbook_golang.Amqp.Spec.Settle.{
  BasicAck, BasicReject, BasicRecoverAsync, BasicRecover, BasicRecoverOk, BasicNack, TxSelect,
  TxSelectOk, TxCommit, TxCommitOk, TxRollback, TxRollbackOk, ConfirmSelect, ConfirmSelectOk,
}
use gitbook_golang.Amqp.Wire.{Bytes}

pub data Message : Type 0 where
  connection_start : ConnectionStart → Message
  connection_start_ok : ConnectionStartOk → Message
  connection_secure : ConnectionSecure → Message
  connection_secure_ok : ConnectionSecureOk → Message
  connection_tune : ConnectionTune → Message
  connection_tune_ok : ConnectionTuneOk → Message
  connection_open : ConnectionOpen → Message
  connection_open_ok : ConnectionOpenOk → Message
  connection_close : ConnectionClose → Message
  connection_close_ok : ConnectionCloseOk → Message
  connection_blocked : ConnectionBlocked → Message
  connection_unblocked : ConnectionUnblocked → Message
  channel_open : ChannelOpen → Message
  channel_open_ok : ChannelOpenOk → Message
  channel_flow : ChannelFlow → Message
  channel_flow_ok : ChannelFlowOk → Message
  channel_close : ChannelClose → Message
  channel_close_ok : ChannelCloseOk → Message
  exchange_declare : ExchangeDeclare → Message
  exchange_declare_ok : ExchangeDeclareOk → Message
  exchange_delete : ExchangeDelete → Message
  exchange_delete_ok : ExchangeDeleteOk → Message
  exchange_bind : ExchangeBind → Message
  exchange_bind_ok : ExchangeBindOk → Message
  exchange_unbind : ExchangeUnbind → Message
  exchange_unbind_ok : ExchangeUnbindOk → Message
  queue_declare : QueueDeclare → Message
  queue_declare_ok : QueueDeclareOk → Message
  queue_bind : QueueBind → Message
  queue_bind_ok : QueueBindOk → Message
  queue_unbind : QueueUnbind → Message
  queue_unbind_ok : QueueUnbindOk → Message
  queue_purge : QueuePurge → Message
  queue_purge_ok : QueuePurgeOk → Message
  queue_delete : QueueDelete → Message
  queue_delete_ok : QueueDeleteOk → Message
  basic_qos : BasicQos → Message
  basic_qos_ok : BasicQosOk → Message
  basic_consume : BasicConsume → Message
  basic_consume_ok : BasicConsumeOk → Message
  basic_cancel : BasicCancel → Message
  basic_cancel_ok : BasicCancelOk → Message
  basic_publish : BasicPublish → Message
  basic_return : BasicReturn → Message
  basic_deliver : BasicDeliver → Message
  basic_get : BasicGet → Message
  basic_get_ok : BasicGetOk → Message
  basic_get_empty : BasicGetEmpty → Message
  basic_ack : BasicAck → Message
  basic_reject : BasicReject → Message
  basic_recover_async : BasicRecoverAsync → Message
  basic_recover : BasicRecover → Message
  basic_recover_ok : BasicRecoverOk → Message
  basic_nack : BasicNack → Message
  tx_select : TxSelect → Message
  tx_select_ok : TxSelectOk → Message
  tx_commit : TxCommit → Message
  tx_commit_ok : TxCommitOk → Message
  tx_rollback : TxRollback → Message
  tx_rollback_ok : TxRollbackOk → Message
  confirm_select : ConfirmSelect → Message
  confirm_select_ok : ConfirmSelectOk → Message

-- `messageWithContent`: the four structs that have a content. `none` is a failed type assertion.
unfoldable pub get_content : Message → Option (Properties × Bytes)
get_content (basic_publish m) = some (m.properties, m.body)
get_content (basic_return m) = some (m.properties, m.body)
get_content (basic_deliver m) = some (m.properties, m.body)
get_content (basic_get_ok m) = some (m.properties, m.body)
get_content _ = none

unfoldable pub set_content : Message → Properties → Bytes → Message
set_content (basic_publish m) props body =
    basic_publish (record m { properties = props; body = body })
set_content (basic_return m) props body =
    basic_return (record m { properties = props; body = body })
set_content (basic_deliver m) props body =
    basic_deliver (record m { properties = props; body = body })
set_content (basic_get_ok m) props body =
    basic_get_ok (record m { properties = props; body = body })
set_content m props body = m

unfoldable pub has_content : Message → Bool
has_content (basic_publish m) = true
has_content (basic_return m) = true
has_content (basic_deliver m) = true
has_content (basic_get_ok m) = true
has_content _ = false
