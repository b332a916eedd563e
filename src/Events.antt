-- ===== src/Events.antt =====
-- internal/domain/events/events.go. The JSON of an event's `data` is kept as the value that is marshalled;
-- `json.Marshal` of these types does not fail, and `UTC()` keeps the instant.
use wager_service.Base.{ℕ, ◌||◌, String, Option}
use wager_service.Base.Int.{ℤ}
use wager_service.Ids.{Uuid, Time, is_nil}
use wager_service.Errors.{Result, ok, ◌>>◌, refuse_if, invalid_envelope, FailureCode}
use wager_service.Money.{Money}
use wager_service.Wager.{Kind}
use wager_service.Ledger.{Direction}

pub record ProcessedData : Type 0 where
  pub transaction_id : Uuid
  pub provider_id : String
  pub external_transaction_id : String
  pub wallet_id : Uuid
  pub player_id : Uuid
  pub kind : Kind
  pub money : Money
  pub resulting_balance : Money
  pub processed_at : Time

pub record RejectedData : Type 0 where
  pub transaction_id : Uuid
  pub provider_id : String
  pub external_transaction_id : String
  pub wallet_id : Uuid
  pub player_id : Uuid
  pub kind : Kind
  pub failure_code : FailureCode
  pub rejected_at : Time

pub record BalanceChangedData : Type 0 where
  pub wallet_id : Uuid
  pub transaction_id : Uuid
  pub direction : Direction
  pub money : Money
  pub balance_before : Money
  pub balance_after : Money
  pub wallet_version : ℤ

pub record PendingReferenceData : Type 0 where
  pub transaction_id : Uuid
  pub provider_id : String
  pub external_transaction_id : String
  pub wallet_id : Uuid
  pub reference_external_transaction_id : String
  pub registered_at : Time

pub data EventType : Type 0 where
  wager_transaction_processed wager_transaction_rejected : EventType
  wallet_balance_changed wager_transaction_pending_reference : EventType

pub data EventData : Type 0 where
  processed : ProcessedData → EventData
  rejected : RejectedData → EventData
  balance_changed : BalanceChangedData → EventData
  pending_reference : PendingReferenceData → EventData

pub record Envelope : Type 0 where
  pub event_id : Uuid
  pub event_type : EventType
  pub aggregate_id : Uuid
  pub correlation_id : Uuid
  pub causation_id : Option Uuid
  pub occurred_at : Time
  pub version : ℕ
  pub payload : EventData

-- `newEnvelope`; the first argument is the value that its call of `uuid.NewV7` returns.
unfoldable pub new_envelope :
    Uuid → EventType → ℕ → Uuid → Uuid → Option Uuid → Time → EventData → Result Envelope
new_envelope event_id event_type version aggregate_id correlation_id causation_id occurred_at
      payload =
    do
      refuse_if (is_nil aggregate_id || is_nil correlation_id) invalid_envelope
      ok (record {
        event_id = event_id;
        event_type = event_type;
        aggregate_id = aggregate_id;
        correlation_id = correlation_id;
        causation_id = causation_id;
        occurred_at = occurred_at;
        version = version;
        payload = payload;
      })

module _ (event_id correlation_id : Uuid) (causation_id : Option Uuid) where
  unfoldable pub new_processed : ProcessedData → Time → Result Envelope
  unfolding new_envelope
  new_processed d occurred_at =
      new_envelope event_id wager_transaction_processed 1 d.transaction_id correlation_id
        causation_id occurred_at (processed d)

  unfoldable pub new_rejected : RejectedData → Time → Result Envelope
  unfolding new_envelope
  new_rejected d occurred_at =
      new_envelope event_id wager_transaction_rejected 1 d.transaction_id correlation_id
        causation_id occurred_at (rejected d)

  unfoldable pub new_balance_changed : BalanceChangedData → Time → Result Envelope
  unfolding new_envelope
  new_balance_changed d occurred_at =
      new_envelope event_id wallet_balance_changed 1 d.wallet_id correlation_id causation_id
        occurred_at (balance_changed d)

  unfoldable pub new_pending_reference : PendingReferenceData → Time → Result Envelope
  unfolding new_envelope
  new_pending_reference d occurred_at =
      new_envelope event_id wager_transaction_pending_reference 1 d.transaction_id correlation_id
        causation_id occurred_at (pending_reference d)
