-- ===== src/Amqp/Spec/Settle/Ends.antt =====
-- The basic class: acknowledgements and recovery; the tx and confirm classes. Its reads on any bytes.
use gitbook_golang.Prelude.{ℕ}
use gitbook_golang.Amqp.Field.Ends.{string_rules}
use gitbook_golang.Amqp.Spec.Settle.{
  read_basic_ack, read_basic_reject, read_basic_recover_async, read_basic_recover,
  read_basic_recover_ok, read_basic_nack, read_tx_select, read_tx_select_ok, read_tx_commit,
  read_tx_commit_ok, read_tx_rollback, read_tx_rollback_ok, read_confirm_select,
  read_confirm_select_ok,
}
use gitbook_golang.Amqp.Wire.Shrinks.{Shrinks}

pub read_basic_ack-Shrinks : (n : ℕ) → Shrinks n read_basic_ack
unfolding read_basic_ack
read_basic_ack-Shrinks n = search string_rules depth 20

pub read_basic_reject-Shrinks : (n : ℕ) → Shrinks n read_basic_reject
unfolding read_basic_reject
read_basic_reject-Shrinks n = search string_rules depth 20

pub read_basic_recover_async-Shrinks : (n : ℕ) → Shrinks n read_basic_recover_async
unfolding read_basic_recover_async
read_basic_recover_async-Shrinks n = search string_rules depth 20

pub read_basic_recover-Shrinks : (n : ℕ) → Shrinks n read_basic_recover
unfolding read_basic_recover
read_basic_recover-Shrinks n = search string_rules depth 20

pub read_basic_recover_ok-Shrinks : (n : ℕ) → Shrinks n read_basic_recover_ok
unfolding read_basic_recover_ok
read_basic_recover_ok-Shrinks n = search string_rules depth 20

pub read_basic_nack-Shrinks : (n : ℕ) → Shrinks n read_basic_nack
unfolding read_basic_nack
read_basic_nack-Shrinks n = search string_rules depth 20

pub read_tx_select-Shrinks : (n : ℕ) → Shrinks n read_tx_select
unfolding read_tx_select
read_tx_select-Shrinks n = search string_rules depth 20

pub read_tx_select_ok-Shrinks : (n : ℕ) → Shrinks n read_tx_select_ok
unfolding read_tx_select_ok
read_tx_select_ok-Shrinks n = search string_rules depth 20

pub read_tx_commit-Shrinks : (n : ℕ) → Shrinks n read_tx_commit
unfolding read_tx_commit
read_tx_commit-Shrinks n = search string_rules depth 20

pub read_tx_commit_ok-Shrinks : (n : ℕ) → Shrinks n read_tx_commit_ok
unfolding read_tx_commit_ok
read_tx_commit_ok-Shrinks n = search string_rules depth 20

pub read_tx_rollback-Shrinks : (n : ℕ) → Shrinks n read_tx_rollback
unfolding read_tx_rollback
read_tx_rollback-Shrinks n = search string_rules depth 20

pub read_tx_rollback_ok-Shrinks : (n : ℕ) → Shrinks n read_tx_rollback_ok
unfolding read_tx_rollback_ok
read_tx_rollback_ok-Shrinks n = search string_rules depth 20

pub read_confirm_select-Shrinks : (n : ℕ) → Shrinks n read_confirm_select
unfolding read_confirm_select
read_confirm_select-Shrinks n = search string_rules depth 20

pub read_confirm_select_ok-Shrinks : (n : ℕ) → Shrinks n read_confirm_select_ok
unfolding read_confirm_select_ok
read_confirm_select_ok-Shrinks n = search string_rules depth 20
