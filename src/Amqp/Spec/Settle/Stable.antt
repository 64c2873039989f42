-- ===== src/Amqp/Spec/Settle/Stable.antt =====
-- The basic class: acknowledgements and recovery; the tx and confirm classes. Its reads with more bytes behind.
use gitbook_golang.Amqp.Field.Stable.{string_stable_rules}
use gitbook_golang.Amqp.Spec.Settle.{
  read_basic_ack, read_basic_reject, read_basic_recover_async, read_basic_recover,
  read_basic_recover_ok, read_basic_nack, read_tx_select, read_tx_select_ok, read_tx_commit,
  read_tx_commit_ok, read_tx_rollback, read_tx_rollback_ok, read_confirm_select,
  read_confirm_select_ok,
}
use gitbook_golang.Amqp.Wire.Stable.{Stable}

pub read_basic_ack-Stable : Stable read_basic_ack
unfolding read_basic_ack
read_basic_ack-Stable = search string_stable_rules depth 20

pub read_basic_reject-Stable : Stable read_basic_reject
unfolding read_basic_reject
read_basic_reject-Stable = search string_stable_rules depth 20

pub read_basic_recover_async-Stable : Stable read_basic_recover_async
unfolding read_basic_recover_async
read_basic_recover_async-Stable = search string_stable_rules depth 20

pub read_basic_recover-Stable : Stable read_basic_recover
unfolding read_basic_recover
read_basic_recover-Stable = search string_stable_rules depth 20

pub read_basic_recover_ok-Stable : Stable read_basic_recover_ok
unfolding read_basic_recover_ok
read_basic_recover_ok-Stable = search string_stable_rules depth 20

pub read_basic_nack-Stable : Stable read_basic_nack
unfolding read_basic_nack
read_basic_nack-Stable = search string_stable_rules depth 20

pub read_tx_select-Stable : Stable read_tx_select
unfolding read_tx_select
read_tx_select-Stable = search string_stable_rules depth 20

pub read_tx_select_ok-Stable : Stable read_tx_select_ok
unfolding read_tx_select_ok
read_tx_select_ok-Stable = search string_stable_rules depth 20

pub read_tx_commit-Stable : Stable read_tx_commit
unfolding read_tx_commit
read_tx_commit-Stable = search string_stable_rules depth 20

pub read_tx_commit_ok-Stable : Stable read_tx_commit_ok
unfolding read_tx_commit_ok
read_tx_commit_ok-Stable = search string_stable_rules depth 20

pub read_tx_rollback-Stable : Stable read_tx_rollback
unfolding read_tx_rollback
read_tx_rollback-Stable = search string_stable_rules depth 20

pub read_tx_rollback_ok-Stable : Stable read_tx_rollback_ok
unfolding read_tx_rollback_ok
read_tx_rollback_ok-Stable = search string_stable_rules depth 20

pub read_confirm_select-Stable : Stable read_confirm_select
unfolding read_confirm_select
read_confirm_select-Stable = search string_stable_rules depth 20

pub read_confirm_select_ok-Stable : Stable read_confirm_select_ok
unfolding read_confirm_select_ok
read_confirm_select_ok-Stable = search string_stable_rules depth 20
