-- ===== src/Amqp/Spec/Settle.antt =====
-- The basic class: acknowledgements and recovery; the tx and confirm classes. A struct of spec091.go, its write and its read.
pub mod Codecs
pub mod Ends
pub mod Stable
use gitbook_golang.Prelude.{ℕ, Bool}
use gitbook_golang.Amqp.Spec.Bits.{set_bit, has_bit}
use gitbook_golang.Amqp.Wire.{Reader, pure, ◌>>=◌, Written, return, ◌>>◌, read_uint, write_uint}

pub record BasicAck : Type 0 where
  pub delivery_tag : ℕ
  pub multiple : Bool

unfoldable pub write_basic_ack : BasicAck → Written
write_basic_ack m = do write_uint 8 m.delivery_tag; write_uint 1 (set_bit m.multiple 0 0); return

unfoldable pub read_basic_ack : Reader BasicAck
read_basic_ack = do
  delivery_tag ← read_uint 8
  bits ← read_uint 1
  pure (record { delivery_tag = delivery_tag; multiple = has_bit bits 0 })

pub record BasicReject : Type 0 where
  pub delivery_tag : ℕ
  pub requeue : Bool

unfoldable pub write_basic_reject : BasicReject → Written
write_basic_reject m = do write_uint 8 m.delivery_tag; write_uint 1 (set_bit m.requeue 0 0); return

unfoldable pub read_basic_reject : Reader BasicReject
read_basic_reject = do
  delivery_tag ← read_uint 8
  bits ← read_uint 1
  pure (record { delivery_tag = delivery_tag; requeue = has_bit bits 0 })

pub record BasicRecoverAsync : Type 0 where
  pub requeue : Bool

unfoldable pub write_basic_recover_async : BasicRecoverAsync → Written
write_basic_recover_async m = do write_uint 1 (set_bit m.requeue 0 0); return

unfoldable pub read_basic_recover_async : Reader BasicRecoverAsync
read_basic_recover_async = do bits ← read_uint 1; pure (record { requeue = has_bit bits 0 })

pub record BasicRecover : Type 0 where
  pub requeue : Bool

unfoldable pub write_basic_recover : BasicRecover → Written
write_basic_recover m = do write_uint 1 (set_bit m.requeue 0 0); return

unfoldable pub read_basic_recover : Reader BasicRecover
read_basic_recover = do bits ← read_uint 1; pure (record { requeue = has_bit bits 0 })

pub record BasicRecoverOk : Type 0 where

unfoldable pub write_basic_recover_ok : BasicRecoverOk → Written
write_basic_recover_ok m = return

unfoldable pub read_basic_recover_ok : Reader BasicRecoverOk
read_basic_recover_ok = pure (record {})

pub record BasicNack : Type 0 where
  pub delivery_tag : ℕ
  pub multiple : Bool
  pub requeue : Bool

unfoldable pub write_basic_nack : BasicNack → Written
write_basic_nack m = do
  write_uint 8 m.delivery_tag
  write_uint 1 (set_bit m.requeue 1 (set_bit m.multiple 0 0))
  return

unfoldable pub read_basic_nack : Reader BasicNack
read_basic_nack = do
  delivery_tag ← read_uint 8
  bits ← read_uint 1
  pure (record { delivery_tag = delivery_tag; multiple = has_bit bits 0; requeue = has_bit bits 1 })

pub record TxSelect : Type 0 where

unfoldable pub write_tx_select : TxSelect → Written
write_tx_select m = return

unfoldable pub read_tx_select : Reader TxSelect
read_tx_select = pure (record {})

pub record TxSelectOk : Type 0 where

unfoldable pub write_tx_select_ok : TxSelectOk → Written
write_tx_select_ok m = return

unfoldable pub read_tx_select_ok : Reader TxSelectOk
read_tx_select_ok = pure (record {})

pub record TxCommit : Type 0 where

unfoldable pub write_tx_commit : TxCommit → Written
write_tx_commit m = return

unfoldable pub read_tx_commit : Reader TxCommit
read_tx_commit = pure (record {})

pub record TxCommitOk : Type 0 where

unfoldable pub write_tx_commit_ok : TxCommitOk → Written
write_tx_commit_ok m = return

unfoldable pub read_tx_commit_ok : Reader TxCommitOk
read_tx_commit_ok = pure (record {})

pub record TxRollback : Type 0 where

unfoldable pub write_tx_rollback : TxRollback → Written
write_tx_rollback m = return

unfoldable pub read_tx_rollback : Reader TxRollback
read_tx_rollback = pure (record {})

pub record TxRollbackOk : Type 0 where

unfoldable pub write_tx_rollback_ok : TxRollbackOk → Written
write_tx_rollback_ok m = return

unfoldable pub read_tx_rollback_ok : Reader TxRollbackOk
read_tx_rollback_ok = pure (record {})

pub record ConfirmSelect : Type 0 where
  pub nowait : Bool

unfoldable pub write_confirm_select : ConfirmSelect → Written
write_confirm_select m = do write_uint 1 (set_bit m.nowait 0 0); return

unfoldable pub read_confirm_select : Reader ConfirmSelect
read_confirm_select = do bits ← read_uint 1; pure (record { nowait = has_bit bits 0 })

pub record ConfirmSelectOk : Type 0 where

unfoldable pub write_confirm_select_ok : ConfirmSelectOk → Written
write_confirm_select_ok m = return

unfoldable pub read_confirm_select_ok : Reader ConfirmSelectOk
read_confirm_select_ok = pure (record {})
