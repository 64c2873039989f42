-- ===== src/Amqp/Spec/Settle/Codecs.antt =====
-- The basic class: acknowledgements and recovery; the tx and confirm classes. Its writes and reads together.
use gitbook_golang.Prelude.{◌^◌, ◌<◌, refl}
use gitbook_golang.Amqp.Spec.Bits.{one-lt, two-lt, flag_laws}
use gitbook_golang.Amqp.Spec.Settle.{
  BasicAck, write_basic_ack, read_basic_ack, BasicReject, write_basic_reject, read_basic_reject,
  BasicRecoverAsync, write_basic_recover_async, read_basic_recover_async, BasicRecover,
  write_basic_recover, read_basic_recover, BasicRecoverOk, write_basic_recover_ok,
  read_basic_recover_ok, BasicNack, write_basic_nack, read_basic_nack, TxSelect, write_tx_select,
  read_tx_select, TxSelectOk, write_tx_select_ok, read_tx_select_ok, TxCommit, write_tx_commit,
  read_tx_commit, TxCommitOk, write_tx_commit_ok, read_tx_commit_ok, TxRollback, write_tx_rollback,
  read_tx_rollback, TxRollbackOk, write_tx_rollback_ok, read_tx_rollback_ok, ConfirmSelect,
  write_confirm_select, read_confirm_select, ConfirmSelectOk, write_confirm_select_ok,
  read_confirm_select_ok,
}
use gitbook_golang.Amqp.Wire.Codec.{Codec, seq, Codec-return}
use gitbook_golang.Amqp.Wire.Words.{uint}

abbrev pub FitsBasicAck : BasicAck → Type 0
FitsBasicAck m = m.delivery_tag < 2 ^ 64

pub basic_ack_codec : (m : BasicAck) → FitsBasicAck m → Codec (write_basic_ack m) read_basic_ack m
unfolding write_basic_ack read_basic_ack
basic_ack_codec m h =
    seq (uint 8 h) _ (seq (uint 1 (one-lt m.multiple)) _ (Codec-return (simp flag_laws)))

abbrev pub FitsBasicReject : BasicReject → Type 0
FitsBasicReject m = m.delivery_tag < 2 ^ 64

pub basic_reject_codec :
    (m : BasicReject) → FitsBasicReject m → Codec (write_basic_reject m) read_basic_reject m
unfolding write_basic_reject read_basic_reject
basic_reject_codec m h =
    seq (uint 8 h) _ (seq (uint 1 (one-lt m.requeue)) _ (Codec-return (simp flag_laws)))

abbrev pub FitsBasicRecoverAsync : BasicRecoverAsync → Type 0
FitsBasicRecoverAsync m = Unit {0}

pub basic_recover_async_codec :
    (m : BasicRecoverAsync)
    → FitsBasicRecoverAsync m
    → Codec (write_basic_recover_async m) read_basic_recover_async m
unfolding write_basic_recover_async read_basic_recover_async
basic_recover_async_codec m h = seq (uint 1 (one-lt m.requeue)) _ (Codec-return (simp flag_laws))

abbrev pub FitsBasicRecover : BasicRecover → Type 0
FitsBasicRecover m = Unit {0}

pub basic_recover_codec :
    (m : BasicRecover) → FitsBasicRecover m → Codec (write_basic_recover m) read_basic_recover m
unfolding write_basic_recover read_basic_recover
basic_recover_codec m h = seq (uint 1 (one-lt m.requeue)) _ (Codec-return (simp flag_laws))

abbrev pub FitsBasicRecoverOk : BasicRecoverOk → Type 0
FitsBasicRecoverOk m = Unit {0}

pub basic_recover_ok_codec :
    (m : BasicRecoverOk)
    → FitsBasicRecoverOk m
    → Codec (write_basic_recover_ok m) read_basic_recover_ok m
unfolding write_basic_recover_ok read_basic_recover_ok
basic_recover_ok_codec m h = Codec-return refl

abbrev pub FitsBasicNack : BasicNack → Type 0
FitsBasicNack m = m.delivery_tag < 2 ^ 64

pub basic_nack_codec :
    (m : BasicNack) → FitsBasicNack m → Codec (write_basic_nack m) read_basic_nack m
unfolding write_basic_nack read_basic_nack
basic_nack_codec m h =
    seq (uint 8 h) _ (seq (uint 1 (two-lt m.multiple m.requeue)) _ (Codec-return (simp flag_laws)))

abbrev pub FitsTxSelect : TxSelect → Type 0
FitsTxSelect m = Unit {0}

pub tx_select_codec : (m : TxSelect) → FitsTxSelect m → Codec (write_tx_select m) read_tx_select m
unfolding write_tx_select read_tx_select
tx_select_codec m h = Codec-return refl

abbrev pub FitsTxSelectOk : TxSelectOk → Type 0
FitsTxSelectOk m = Unit {0}

pub tx_select_ok_codec :
    (m : TxSelectOk) → FitsTxSelectOk m → Codec (write_tx_select_ok m) read_tx_select_ok m
unfolding write_tx_select_ok read_tx_select_ok
tx_select_ok_codec m h = Codec-return refl

abbrev pub FitsTxCommit : TxCommit → Type 0
FitsTxCommit m = Unit {0}

pub tx_commit_codec : (m : TxCommit) → FitsTxCommit m → Codec (write_tx_commit m) read_tx_commit m
unfolding write_tx_commit read_tx_commit
tx_commit_codec m h = Codec-return refl

abbrev pub FitsTxCommitOk : TxCommitOk → Type 0
FitsTxCommitOk m = Unit {0}

pub tx_commit_ok_codec :
    (m : TxCommitOk) → FitsTxCommitOk m → Codec (write_tx_commit_ok m) read_tx_commit_ok m
unfolding write_tx_commit_ok read_tx_commit_ok
tx_commit_ok_codec m h = Codec-return refl

abbrev pub FitsTxRollback : TxRollback → Type 0
FitsTxRollback m = Unit {0}

pub tx_rollback_codec :
    (m : TxRollback) → FitsTxRollback m → Codec (write_tx_rollback m) read_tx_rollback m
unfolding write_tx_rollback read_tx_rollback
tx_rollback_codec m h = Codec-return refl

abbrev pub FitsTxRollbackOk : TxRollbackOk → Type 0
FitsTxRollbackOk m = Unit {0}

pub tx_rollback_ok_codec :
    (m : TxRollbackOk) → FitsTxRollbackOk m → Codec (write_tx_rollback_ok m) read_tx_rollback_ok m
unfolding write_tx_rollback_ok read_tx_rollback_ok
tx_rollback_ok_codec m h = Codec-return refl

abbrev pub FitsConfirmSelect : ConfirmSelect → Type 0
FitsConfirmSelect m = Unit {0}

pub confirm_select_codec :
    (m : ConfirmSelect) → FitsConfirmSelect m → Codec (write_confirm_select m) read_confirm_select m
unfolding write_confirm_select read_confirm_select
confirm_select_codec m h = seq (uint 1 (one-lt m.nowait)) _ (Codec-return (simp flag_laws))

abbrev pub FitsConfirmSelectOk : ConfirmSelectOk → Type 0
FitsConfirmSelectOk m = Unit {0}

pub confirm_select_ok_codec :
    (m : ConfirmSelectOk)
    → FitsConfirmSelectOk m
    → Codec (write_confirm_select_ok m) read_confirm_select_ok m
unfolding write_confirm_select_ok read_confirm_select_ok
confirm_select_ok_codec m h = Codec-return refl
