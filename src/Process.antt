-- ===== src/Process.antt =====
-- internal/application/process_wager_transaction.go and canonical_hash.go: the use case that carries out a
-- provider's operation, over any ports.
pub mod Request
pub mod Reversal
pub mod Outcome
pub mod Kinds
pub mod Replay
pub mod Matching
use Kinds.{dispatch}
use Request.{
  Command, InboxDedup, ProcessResult, CanonicalPayload, canonical_payload_from,
  result_from_transaction,
}
use Reversal.{validate_reversal_reference, reversal_direction}
use Outcome.{
  commit_movement, reject_and_save, append_processed_event, append_pending_reference_event,
}
use wager_service.Base.{
  ℕ, ◌+◌, Bool, true, false, not, String, Option, none, some, ltb, str_eq, if◌then◌else◌,
}
use wager_service.Base.Int.{ℤ}
use wager_service.Ids.{Uuid, Time}
use wager_service.Errors.{
  Error, Result, ok, err, FailureCode, insufficient_funds, duplicate_reversal,
  reversal_exceeds_balance, insufficient_balance, idempotency_key_reused,
  external_transaction_key_mismatch, conflict, invalid_kind_for_operation,
}
use wager_service.Money.{Money}
use wager_service.Wallet.{Wallet, Movement}
use wager_service.Wager.{
  Transaction, Kind, bet, win, loss, refund, rollback, no_kind, ExternalParams, new_external,
  mark_processed, mark_pending_reference, attach_resolved_reference, is_blank,
}
use wager_service.Ledger.{Direction, debit, credit}
use wager_service.Ports.{M, Ports, InboxRecord, pure, fail, lift, or_nil, attempt, ◌>>=◌, ◌>>◌}

abbrev pub external_params : Command → String → Uuid → ExternalParams
external_params cmd hash id = record {
  id = id;
  provider_id = cmd.provider_id;
  external_transaction_id = cmd.external_transaction_id;
  idempotency_key = cmd.idempotency_key;
  payload_hash = hash;
  wallet_id = cmd.wallet_id;
  player_id = cmd.player_id;
  round_id = cmd.round_id;
  game_id = cmd.game_id;
  kind = cmd.kind;
  money = cmd.amount;
  reference_external_transaction_id = cmd.reference_external_transaction_id;
}

-- `byExternalID != nil && byExternalID.IdempotencyKey() != cmd.IdempotencyKey`
abbrev pub has_other_key : Command → Option Transaction → Bool
has_other_key cmd none = false
has_other_key cmd (some tx) = not (str_eq tx.idempotency_key cmd.idempotency_key)

module _ {S : Type 0} (P : Ports S) where
  -- a recorded transaction answers, if it has the same payload
  unfoldable pub replay : String → Transaction → M S ProcessResult
  replay hash tx =
      if not (str_eq tx.payload_hash hash)
      then fail idempotency_key_reused
      else pure (result_from_transaction tx true)

  -- what becomes of a conflict in `txs.Create`, by what the second lookup returned
  unfoldable pub replay_concurrent : String → Result Transaction → M S ProcessResult
  replay_concurrent hash (ok concurrent) = replay hash concurrent
  replay_concurrent hash (err find_err) = fail conflict

  -- what becomes of the result of `txs.Create`
  unfoldable pub created : Command → String → Transaction → Result (Unit {0}) → M S ProcessResult
  created cmd hash tx (ok _) = dispatch P tx cmd cmd.kind
  created cmd hash tx (err conflict) = do
    concurrent ← attempt (P.txs.find_by_idempotency_key cmd.provider_id cmd.idempotency_key)
    replay_concurrent hash concurrent
  created cmd hash tx (err e) = fail e

  unfoldable pub start : Command → String → M S ProcessResult
  start cmd hash = do
    id ← P.new_v7
    tx ← lift (new_external (external_params cmd hash id) cmd.now)
    r ← attempt (P.txs.create tx)
    created cmd hash tx r

  unfoldable pub replay_or_start : Command → String → Option Transaction → M S ProcessResult
  replay_or_start cmd hash (some tx) = replay hash tx
  replay_or_start cmd hash none = start cmd hash

  unfoldable pub process_idempotently : Command → String → M S ProcessResult
  process_idempotently cmd hash = do
    by_external_id ←
        or_nil (P.txs.find_by_provider_and_external_id cmd.provider_id cmd.external_transaction_id)
    if has_other_key cmd by_external_id then fail external_transaction_key_mismatch else do
      by_key ← or_nil (P.txs.find_by_idempotency_key cmd.provider_id cmd.idempotency_key)
      replay_or_start cmd hash by_key

  unfoldable pub replay_by_idempotency_key : String → String → M S ProcessResult
  replay_by_idempotency_key provider_id idempotency_key = do
    tx ← P.txs.find_by_idempotency_key provider_id idempotency_key
    pure (result_from_transaction tx true)

  -- a message that was completed before answers again
  unfoldable pub replay_completed : Command → Option Time → M S (Option ProcessResult)
  replay_completed cmd none = pure none
  replay_completed cmd (some _) = do
    r ← replay_by_idempotency_key cmd.provider_id cmd.idempotency_key
    pure (some r)

  -- `handleInbox` on what it found; `none` is "not handled"
  unfoldable pub handle_found :
      Command → InboxDedup → String → Option InboxRecord → M S (Option ProcessResult)
  handle_found cmd dedup hash none = do
    P.inbox.insert (record {
      consumer_name = dedup.consumer_name;
      message_id = dedup.message_id;
      payload_hash = hash;
      received_at = cmd.now;
      completed_at = none;
    })
    pure none
  handle_found cmd dedup hash (some existing) =
      if not (str_eq existing.payload_hash hash)
      then fail idempotency_key_reused
      else replay_completed cmd existing.completed_at

  unfoldable pub handle_inbox : Command → InboxDedup → String → M S (Option ProcessResult)
  handle_inbox cmd dedup hash = do
    existing ← or_nil (P.inbox.find dedup.consumer_name dedup.message_id)
    handle_found cmd dedup hash existing

  unfoldable pub process_and_complete :
      Command → InboxDedup → String → Option ProcessResult → M S ProcessResult
  process_and_complete cmd dedup hash (some r) = pure r
  process_and_complete cmd dedup hash none = do
    r ← process_idempotently cmd hash
    P.inbox.mark_completed dedup.consumer_name dedup.message_id cmd.now
    pure r

  -- the body of `Execute`'s transaction
  unfoldable pub execute_body : Command → String → Option InboxDedup → M S ProcessResult
  execute_body cmd hash none = process_idempotently cmd hash
  execute_body cmd hash (some dedup) = do
    handled ← handle_inbox cmd dedup hash
    process_and_complete cmd dedup hash handled

  -- `Execute`. The hash is `CanonicalHash`: SHA-256 over JSON with sorted keys.
  unfoldable pub execute : (CanonicalPayload → Result String) → Command → M S ProcessResult
  execute canonical_hash cmd = do
    hash ← lift (canonical_hash (canonical_payload_from cmd))
    P.within_tx (execute_body cmd hash cmd.inbox)
