-- ===== src/Process/Request.antt =====
-- internal/application/process_wager_transaction.go: the command, the result and the canonical payload.
use wager_service.Base.{Bool, String, Option}
use wager_service.Ids.{Uuid, Time}
use wager_service.Errors.{FailureCode}
use wager_service.Money.{Money, to_string}
use wager_service.Money.Decimal.{Bytes}
use wager_service.Wager
use wager_service.Wager.{Kind, Transaction}

pub record InboxDedup : Type 0 where
  pub consumer_name : String
  pub message_id : String

-- `ProcessWagerTransactionCommand`
pub record Command : Type 0 where
  pub provider_id : String
  pub external_transaction_id : String
  pub idempotency_key : String
  pub player_id : Uuid
  pub wallet_id : Uuid
  pub round_id : String
  pub game_id : String
  pub kind : Kind
  pub amount : Money
  pub reference_external_transaction_id : String
  pub correlation_id : Uuid
  pub now : Time
  pub inbox : Option InboxDedup

-- `ProcessResultStatus`
pub data ResultStatus : Type 0 where
  result_processed result_rejected result_pending result_pending_reference : ResultStatus

pub record ProcessResult : Type 0 where
  pub transaction_id : Uuid
  pub status : ResultStatus
  pub balance : Option Money
  pub failure_code : FailureCode
  pub idempotent_replay : Bool

-- the `switch` of `resultFromTransaction`
abbrev pub result_status : Wager.Status → ResultStatus
result_status Wager.processed = result_processed
result_status Wager.rejected = result_rejected
result_status Wager.pending_reference = result_pending_reference
result_status _ = result_pending

abbrev pub result_from_transaction : Transaction → Bool → ProcessResult
result_from_transaction tx replay = record {
  transaction_id = tx.id;
  status = result_status tx.status;
  balance = tx.resulting_balance;
  failure_code = tx.failure_code;
  idempotent_replay = replay;
}

-- `CanonicalPayload`; the two identifiers stand for their texts, and the kind for its string.
pub record CanonicalPayload : Type 0 where
  pub provider_id : String
  pub external_transaction_id : String
  pub player_id : Uuid
  pub wallet_id : Uuid
  pub round_id : String
  pub game_id : String
  pub kind : Kind
  pub amount : Bytes
  pub currency : String
  pub reference_external_transaction_id : String

-- `canonicalPayloadFrom`
abbrev pub canonical_payload_from : Command → CanonicalPayload
canonical_payload_from cmd = record {
  provider_id = cmd.provider_id;
  external_transaction_id = cmd.external_transaction_id;
  player_id = cmd.player_id;
  wallet_id = cmd.wallet_id;
  round_id = cmd.round_id;
  game_id = cmd.game_id;
  kind = cmd.kind;
  amount = to_string cmd.amount;
  currency = cmd.amount.currency;
  reference_external_transaction_id = cmd.reference_external_transaction_id;
}
