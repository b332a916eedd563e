-- ===== src/Process/Kinds.antt =====
-- internal/application/process_wager_transaction.go: what is done for each kind of operation.
use wager_service.Process.Request.{Command, ProcessResult, result_from_transaction}
use wager_service.Process.Reversal.{validate_reversal_reference, reversal_direction}
use wager_service.Process.Outcome.{
  commit_movement, reject_and_save, append_processed_event, append_pending_reference_event,
}
use wager_service.Base.{◌+◌, false, Option, none, some, ltb, if◌then◌else◌}
use wager_service.Base.Int.{ℤ}
use wager_service.Ids.{Time}
use wager_service.Errors.{
  Result, ok, err, insufficient_funds, duplicate_reversal, reversal_exceeds_balance,
  insufficient_balance, invalid_kind_for_operation,
}
use wager_service.Money.{Money}
use wager_service.Wallet
use wager_service.Wallet.{Wallet, Movement}
use wager_service.Wager.{
  Transaction, Kind, bet, win, loss, refund, rollback, no_kind, mark_processed,
  mark_pending_reference, attach_resolved_reference, is_blank,
}
use wager_service.Ledger.{Direction, debit, credit}
use wager_service.Ports.{M, Ports, pure, fail, lift, or_nil, attempt, ◌>>=◌, ◌>>◌}

-- `_ = tx.AttachResolvedReference(ref.ID())` where the lookup succeeded
unfoldable pub attach_if_found : Transaction → Result Transaction → Transaction
attach_if_found tx (err e) = tx
attach_if_found tx (ok ref) = elim (attach_resolved_reference ref.id tx) [
  | ok tx' ↦ tx'
  | err e ↦ tx
]

abbrev pub move_by : Direction → Wallet → Money → Time → Result (Movement × Wallet)
move_by credit w amount at = Wallet.credit w amount at
move_by _ w amount at = Wallet.debit w amount at

module _ {S : Type 0} (P : Ports S) where
  -- the end of `processBet`, on what `Debit` returned
  unfoldable pub finish_bet :
      Transaction → Command → ℤ → Result (Movement × Wallet) → M S ProcessResult
  finish_bet tx cmd expected (err insufficient_balance) =
      reject_and_save P tx cmd insufficient_funds
  finish_bet tx cmd expected (err e) = fail e
  finish_bet tx cmd expected (ok (movement, w)) = commit_movement P tx w expected movement debit cmd

  unfoldable pub process_bet : Transaction → Command → M S ProcessResult
  process_bet tx cmd = do
    w ← P.wallets.find_by_id_for_update cmd.wallet_id
    finish_bet tx cmd w.version (Wallet.debit w cmd.amount cmd.now)

  unfoldable pub attach_win_reference : Transaction → Command → M S Transaction
  attach_win_reference tx cmd =
      if is_blank cmd.reference_external_transaction_id then pure tx else (do
        r ← attempt (
            P.txs.find_by_provider_and_external_id cmd.provider_id
              cmd.reference_external_transaction_id)
        pure (attach_if_found tx r))

  unfoldable pub process_win : Transaction → Command → M S ProcessResult
  process_win tx cmd = do
    w ← P.wallets.find_by_id_for_update cmd.wallet_id
    (movement, w') ← lift (Wallet.credit w cmd.amount cmd.now)
    tx' ← attach_win_reference tx cmd
    commit_movement P tx' w' w.version movement credit cmd

  unfoldable pub process_loss : Transaction → Command → M S ProcessResult
  process_loss tx cmd = do
    w ← P.wallets.find_by_id cmd.wallet_id
    tx' ← lift (mark_processed w.balance cmd.now tx)
    P.txs.save tx'
    append_processed_event P tx' cmd
    pure (result_from_transaction tx' false)

  -- `processReversal` where the reference is not there yet
  unfoldable pub park : Transaction → Command → M S ProcessResult
  park tx cmd = do
    tx' ← lift (mark_pending_reference cmd.now tx)
    P.txs.save tx'
    append_pending_reference_event P tx' cmd
    pure (result_from_transaction tx' false)

  -- the end of `processReversal`, on what `Credit` or `Debit` returned
  unfoldable pub finish_reversal :
      Transaction → Command → Transaction → ℤ → Result (Movement × Wallet) → M S ProcessResult
  finish_reversal tx cmd ref expected (err insufficient_balance) =
      reject_and_save P tx cmd reversal_exceeds_balance
  finish_reversal tx cmd ref expected (err e) = fail e
  finish_reversal tx cmd ref expected (ok (movement, w)) = do
    tx' ← lift (attach_resolved_reference ref.id tx)
    commit_movement P tx' w expected movement (reversal_direction ref.kind) cmd

  -- `processReversal` behind its validation
  unfoldable pub reverse : Transaction → Command → Transaction → M S ProcessResult
  reverse tx cmd ref = do
    refund_count ← P.txs.count_successful_reversals ref.id refund
    rollback_count ← P.txs.count_successful_reversals ref.id rollback
    if ltb 0 (refund_count + rollback_count)
        then reject_and_save P tx cmd duplicate_reversal
        else do
          w ← P.wallets.find_by_id_for_update cmd.wallet_id
          finish_reversal tx cmd ref w.version
              (move_by (reversal_direction ref.kind) w cmd.amount cmd.now)

  -- `processReversal`, on what the lookup of the reference found
  unfoldable pub reverse_found :
      Transaction → Command → Kind → Option Transaction → M S ProcessResult
  reverse_found tx cmd expected_kind none = park tx cmd
  reverse_found tx cmd expected_kind (some ref) =
      elim (validate_reversal_reference cmd ref expected_kind) [
        | some code ↦ reject_and_save P tx cmd code
        | none ↦ reverse tx cmd ref
      ]

  unfoldable pub process_reversal : Transaction → Command → Kind → M S ProcessResult
  process_reversal tx cmd expected_kind = do
    ref ← or_nil (
        P.txs.find_by_provider_and_external_id cmd.provider_id
          cmd.reference_external_transaction_id)
    reverse_found tx cmd expected_kind ref

  -- the `switch` of `processIdempotently`
  unfoldable pub dispatch : Transaction → Command → Kind → M S ProcessResult
  dispatch tx cmd bet = process_bet tx cmd
  dispatch tx cmd win = process_win tx cmd
  dispatch tx cmd loss = process_loss tx cmd
  dispatch tx cmd refund = process_reversal tx cmd bet
  dispatch tx cmd rollback = process_reversal tx cmd no_kind
  dispatch tx cmd _ = fail invalid_kind_for_operation
