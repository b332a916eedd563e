-- ===== src/Resolve.antt =====
-- internal/application/resolve_pending_references.go: the worker that settles parked reversals.
use wager_service.Base.{
  ℕ, ◌+◌, Bool, true, false, Option, none, some, List, [], ◌∷◌, ltb, if◌then◌else◌,
}
use wager_service.Base.Int.{ℤ, pos, sub_ℕ, leb_ℤ}
use wager_service.Ids.{Time, Duration, nil_uuid}
use wager_service.Errors.{
  Error, Result, ok, err, FailureCode, reference_not_found, duplicate_reversal,
  reversal_exceeds_balance, insufficient_balance,
}
use wager_service.Money.{Money, no_money}
use wager_service.Wallet.{Wallet, Movement}
use wager_service.Wager.{
  Transaction, Kind, bet, refund, rollback, no_kind, kind_eq, mark_rejected, mark_processed,
  attach_resolved_reference,
}
use wager_service.Ledger
use wager_service.Ledger.{Direction}
use wager_service.Ports.{M, Ports, pure, fail, lift, or_nil, ◌>>=◌, ◌>>◌}
use wager_service.Process.Kinds.{move_by}
use wager_service.Process.Request.{Command}
use wager_service.Process.Reversal.{validate_reversal_reference, reversal_direction}
use wager_service.Process.Outcome.{
  append_processed_event, append_rejected_event, append_balance_changed_event,
}

pub record PendingReferenceRetryPolicy : Type 0 where
  pub max_attempts : ℕ
  pub max_age : Duration
  pub base_backoff : Duration

-- A command with the zero value in every field but those given.
abbrev pub blank_command : Money → Time → Command
blank_command amount now = record {
  provider_id = "";
  external_transaction_id = "";
  idempotency_key = "";
  player_id = nil_uuid;
  wallet_id = nil_uuid;
  round_id = "";
  game_id = "";
  kind = no_kind;
  amount = amount;
  reference_external_transaction_id = "";
  correlation_id = nil_uuid;
  now = now;
  inbox = none;
}

-- `probe` of `attempt`
abbrev pub probe : Transaction → Time → Command
probe tx now = record (blank_command tx.money now) {
  provider_id = tx.provider_id;
  player_id = tx.player_id;
  wallet_id = tx.wallet_id;
  round_id = tx.round_id;
}

abbrev pub expected_kind : Transaction → Kind
expected_kind tx = if kind_eq tx.kind refund then bet else no_kind

module _ {S : Type 0} (P : Ports S) (policy : PendingReferenceRetryPolicy) where
  unfoldable pub reject_pending : Transaction → FailureCode → Time → M S (Unit {0})
  reject_pending tx code now = do
    tx' ← lift (mark_rejected code now tx)
    P.txs.save tx'
    append_rejected_event P tx' (blank_command no_money now)

  -- The result says whether the transaction is settled: that it has expired.
  unfoldable pub reschedule_or_expire : Transaction → Time → M S Bool
  reschedule_or_expire tx now =
      if leb_ℤ (pos policy.max_age) (sub_ℕ now tx.created_at)
      then (do reject_pending tx reference_not_found now; pure true)
      else (do
        P.txs.record_pending_reference_attempt tx.id 1 (now + policy.base_backoff)
        pure false)

  -- the end of `attempt`, on what `Credit` or `Debit` returned
  unfoldable pub settle :
      Transaction → Transaction → ℤ → Time → Result (Movement × Wallet) → M S Bool
  settle tx ref expected now (err insufficient_balance) = do
    reject_pending tx reversal_exceeds_balance now
    pure true
  settle tx ref expected now (err e) = fail e
  settle tx ref expected now (ok (movement, w)) = do
    let direction = reversal_direction ref.kind
    entry_id ← P.new_v7
    entry ← lift (
        Ledger.new entry_id w.id tx.id direction tx.money movement.balance_before
          movement.balance_after now)
    P.ledgers.append entry
    P.wallets.save w expected
    attached ← lift (attach_resolved_reference ref.id tx)
    tx' ← lift (mark_processed movement.balance_after now attached)
    P.txs.save tx'
    append_processed_event P tx' (blank_command tx.money now)
    append_balance_changed_event P tx' w movement direction (blank_command tx.money now)
    pure true

  -- `attempt` behind its validation
  unfoldable pub reverse : Transaction → Transaction → Time → M S Bool
  reverse tx ref now = do
    refund_count ← P.txs.count_successful_reversals ref.id refund
    rollback_count ← P.txs.count_successful_reversals ref.id rollback
    if ltb 0 (refund_count + rollback_count)
        then (do reject_pending tx duplicate_reversal now; pure true)
        else do
          w ← P.wallets.find_by_id_for_update tx.wallet_id
          settle tx ref w.version now (move_by (reversal_direction ref.kind) w tx.money now)

  -- `attempt`, on what the lookup of the reference found
  unfoldable pub attempt_found : Transaction → Time → Option Transaction → M S Bool
  attempt_found tx now none = reschedule_or_expire tx now
  attempt_found tx now (some ref) =
      elim (validate_reversal_reference (probe tx now) ref (expected_kind tx)) [
        | some code ↦ do reject_pending tx code now; pure true
        | none ↦ reverse tx ref now
      ]

  unfoldable pub attempt_body : Transaction → Time → M S Bool
  attempt_body tx now = do
    ref ←
        or_nil (
          P.txs.find_by_provider_and_external_id tx.provider_id
            tx.reference_external_transaction_id)
    attempt_found tx now ref

  -- What `attempt` returns beside an error is not read by `RunOnce`.
  unfoldable pub attempt : Transaction → Time → M S Bool
  attempt tx now = P.within_tx (attempt_body tx now)

  -- the loop of `RunOnce`, on the numbers resolved and rescheduled so far; an error keeps them
  unfoldable pub run_due : List Transaction → Time → ℕ × ℕ → S → (ℕ × ℕ) × Option Error × S
  run_due [] now counts s = (counts, none, s)
  run_due (tx ∷ due) now (resolved, rescheduled) s =
      let (r, s') = attempt tx now s in
      elim r [
        | err e ↦ ((resolved, rescheduled), some e, s')
        | ok did_resolve ↦
            run_due due now
              (if did_resolve then (resolved + 1, rescheduled) else (resolved, rescheduled + 1)) s'
      ]

  unfoldable pub run_once : Time → ℤ → S → (ℕ × ℕ) × Option Error × S
  run_once now n s =
      let (r, s') = P.txs.list_pending_reference_due now n s in
      elim r [ err e ↦ ((0, 0), some e, s') | ok due ↦ run_due due now (0, 0) s' ]
