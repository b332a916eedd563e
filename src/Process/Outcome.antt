-- ===== src/Process/Outcome.antt =====
-- internal/application/process_wager_transaction.go: how an operation ends, with its events.
use wager_service.Base.{false, Option, none, some, if◌then◌else◌}
use wager_service.Base.Int.{ℤ}
use wager_service.Ids.{Uuid, Time, is_nil, zero_time}
use wager_service.Errors.{Result, FailureCode}
use wager_service.Money.{Money, no_money}
use wager_service.Wallet.{Wallet, Movement}
use wager_service.Wager.{Transaction, mark_processed, mark_rejected}
use wager_service.Ledger
use wager_service.Ledger.{Direction}
use wager_service.Events.{
  Envelope, new_processed, new_rejected, new_pending_reference, new_balance_changed,
}
use wager_service.Ports.{M, Ports, OutboxRecord, pure, lift, ◌>>=◌, ◌>>◌}
use wager_service.Process.Request.{Command, ProcessResult, result_from_transaction}

-- `*tx.ResultingBalance()`, or the zero `Money`
abbrev balance_or_none : Option Money → Money
balance_or_none none = no_money
balance_or_none (some b) = b

abbrev pub outbox_record : Envelope → Time → OutboxRecord
outbox_record env now = record {
  event_id = env.event_id;
  aggregate_id = env.aggregate_id;
  event_type = env.event_type;
  envelope = env;
  occurred_at = env.occurred_at;
  attempts = 0;
  next_attempt = now;
  published_at = none;
}

module _ {S : Type 0} (P : Ports S) where
  -- `correlationID`
  unfoldable pub correlation_id : Command → M S Uuid
  correlation_id cmd = if is_nil cmd.correlation_id then P.new_v7 else pure cmd.correlation_id

  -- the common end of the four `append…Event` methods
  unfoldable pub append_event : Result Envelope → Time → M S (Unit {0})
  append_event env now = do e ← lift env; P.outbox.append (outbox_record e now)

  unfoldable pub append_processed_event : Transaction → Command → M S (Unit {0})
  append_processed_event tx cmd = do
    correlation ← correlation_id cmd
    event_id ← P.new_v7
    append_event
        (new_processed event_id correlation none
          (record {
            transaction_id = tx.id;
            provider_id = tx.provider_id;
            external_transaction_id = tx.external_transaction_id;
            wallet_id = tx.wallet_id;
            player_id = tx.player_id;
            kind = tx.kind;
            money = tx.money;
            resulting_balance = balance_or_none tx.resulting_balance;
            processed_at = cmd.now;
          })
          cmd.now)
        cmd.now

  unfoldable pub append_rejected_event : Transaction → Command → M S (Unit {0})
  append_rejected_event tx cmd = do
    correlation ← correlation_id cmd
    event_id ← P.new_v7
    append_event
        (new_rejected event_id correlation none
          (record {
            transaction_id = tx.id;
            provider_id = tx.provider_id;
            external_transaction_id = tx.external_transaction_id;
            wallet_id = tx.wallet_id;
            player_id = tx.player_id;
            kind = tx.kind;
            failure_code = tx.failure_code;
            rejected_at = cmd.now;
          })
          cmd.now)
        cmd.now

  -- `RegisteredAt` is not set, so it is the zero time.
  unfoldable pub append_pending_reference_event : Transaction → Command → M S (Unit {0})
  append_pending_reference_event tx cmd = do
    correlation ← correlation_id cmd
    event_id ← P.new_v7
    append_event
        (new_pending_reference event_id correlation none
          (record {
            transaction_id = tx.id;
            provider_id = tx.provider_id;
            external_transaction_id = tx.external_transaction_id;
            wallet_id = tx.wallet_id;
            reference_external_transaction_id = tx.reference_external_transaction_id;
            registered_at = zero_time;
          })
          cmd.now)
        cmd.now

  unfoldable pub append_balance_changed_event :
      Transaction → Wallet → Movement → Direction → Command → M S (Unit {0})
  append_balance_changed_event tx w movement direction cmd = do
    correlation ← correlation_id cmd
    event_id ← P.new_v7
    append_event
        (new_balance_changed event_id correlation none
          (record {
            wallet_id = w.id;
            transaction_id = tx.id;
            direction = direction;
            money = cmd.amount;
            balance_before = movement.balance_before;
            balance_after = movement.balance_after;
            wallet_version = movement.wallet_version;
          })
          cmd.now)
        cmd.now

  unfoldable pub commit_movement :
      Transaction → Wallet → ℤ → Movement → Direction → Command → M S ProcessResult
  commit_movement tx w expected_version movement direction cmd = do
    entry_id ← P.new_v7
    entry ← lift (
        Ledger.new entry_id w.id tx.id direction cmd.amount movement.balance_before
          movement.balance_after cmd.now)
    P.ledgers.append entry
    P.wallets.save w expected_version
    tx' ← lift (mark_processed movement.balance_after cmd.now tx)
    P.txs.save tx'
    append_processed_event tx' cmd
    append_balance_changed_event tx' w movement direction cmd
    pure (result_from_transaction tx' false)

  unfoldable pub reject_and_save : Transaction → Command → FailureCode → M S ProcessResult
  reject_and_save tx cmd code = do
    tx' ← lift (mark_rejected code cmd.now tx)
    P.txs.save tx'
    append_rejected_event tx' cmd
    pure (result_from_transaction tx' false)
