-- ===== src/Http/Responses.antt =====
-- internal/infra/http/responses.go: the answers of the handlers. An identifier and an instant stand for their
-- texts, and a kind, a status and a failure code for their strings; `omitempty` is left to the encoder.
use wager_service.Base.{ℕ, Bool, String, Option, none, some, List}
use wager_service.Base.Int.{ℤ}
use wager_service.Ids.{Uuid, Time}
use wager_service.Errors.{
  Error, FailureCode, not_found, conflict, optimistic_lock, idempotency_key_reused,
  external_transaction_key_mismatch, invalid_argument,
}
use wager_service.Money.{Money, to_string}
use wager_service.Money.Decimal.{Bytes}
use wager_service.Wallet.{Wallet}
use wager_service.Wager.{Transaction, Kind, Status}
use wager_service.Ledger.{Entry, Direction}
use wager_service.Process.Request.{ProcessResult, ResultStatus}
use wager_service.Reconcile.{ReconciliationResult}

-- What is written: a status with a body, or an error with its code; its message is left out.
pub record Reply (B : Type 0) : Type 0 where
  pub status : ℕ
  pub body : Option B
  pub error : String

-- `writeJSON`
abbrev pub written : {B : Type 0} → ℕ → B → Reply B
written status body = record { status = status; body = some body; error = "" }

-- `writeError`
abbrev pub refused : {B : Type 0} → ℕ → String → Reply B
refused status code = record { status = status; body = none; error = code }

-- `statusForError`, `isNotFound`, `isConflict` and `isInvalidArgument`
abbrev pub status_for_error : Error → ℕ
status_for_error not_found = 404
status_for_error conflict = 409
status_for_error optimistic_lock = 409
status_for_error idempotency_key_reused = 409
status_for_error external_transaction_key_mismatch = 409
status_for_error invalid_argument = 400
status_for_error _ = 500

-- An identifier as `String` writes it, or as the client sent it.
pub data IdText : Type 0 where
  canonical : Uuid → IdText
  as_sent : String → IdText

pub record WalletResponse : Type 0 where
  pub id : Uuid
  pub player_id : IdText
  pub currency : String
  pub balance : Bytes
  pub version : ℤ
  pub created_at : Time
  pub updated_at : Time

-- `walletToResponse`
abbrev pub wallet_to_response : Wallet → WalletResponse
wallet_to_response w = record {
  id = w.id;
  player_id = canonical w.player_id;
  currency = w.balance.currency;
  balance = to_string w.balance;
  version = w.version;
  created_at = w.created_at;
  updated_at = w.updated_at;
}

-- `moneyToPtr`
abbrev pub money_to_ptr : Option Money → Option Bytes
money_to_ptr none = none
money_to_ptr (some m) = some (to_string m)

pub record TransactionResponse : Type 0 where
  pub id : Uuid
  pub provider_id : String
  pub external_transaction_id : String
  pub wallet_id : Uuid
  pub player_id : Uuid
  pub round_id : String
  pub game_id : String
  pub kind : Kind
  pub amount : Bytes
  pub currency : String
  pub reference_external_transaction_id : String
  pub status : Status
  pub failure_code : FailureCode
  pub resulting_balance : Option Bytes
  pub created_at : Time
  pub updated_at : Time

-- `transactionToResponse`
abbrev pub transaction_to_response : Transaction → TransactionResponse
transaction_to_response tx = record {
  id = tx.id;
  provider_id = tx.provider_id;
  external_transaction_id = tx.external_transaction_id;
  wallet_id = tx.wallet_id;
  player_id = tx.player_id;
  round_id = tx.round_id;
  game_id = tx.game_id;
  kind = tx.kind;
  amount = to_string tx.money;
  currency = tx.money.currency;
  reference_external_transaction_id = tx.reference_external_transaction_id;
  status = tx.status;
  failure_code = tx.failure_code;
  resulting_balance = money_to_ptr tx.resulting_balance;
  created_at = tx.created_at;
  updated_at = tx.updated_at;
}

pub record LedgerEntryResponse : Type 0 where
  pub id : Uuid
  pub wallet_id : Uuid
  pub transaction_id : Uuid
  pub direction : Direction
  pub amount : Bytes
  pub currency : String
  pub balance_before : Bytes
  pub balance_after : Bytes
  pub created_at : Time

-- `ledgerEntryToResponse`
abbrev pub ledger_entry_to_response : Entry → LedgerEntryResponse
ledger_entry_to_response e = record {
  id = e.id;
  wallet_id = e.wallet_id;
  transaction_id = e.transaction_id;
  direction = e.direction;
  amount = to_string e.money;
  currency = e.money.currency;
  balance_before = to_string e.balance_before;
  balance_after = to_string e.balance_after;
  created_at = e.created_at;
}

pub record LedgerPageResponse : Type 0 where
  pub entries : List LedgerEntryResponse
  pub next_cursor : Bytes

pub record ReconciliationResponse : Type 0 where
  pub wallet_id : Uuid
  pub stored_balance : Bytes
  pub calculated_balance : Bytes
  pub difference : Bytes
  pub consistent : Bool
  pub checked_entries : ℕ

-- the body that `Reconcile` writes
abbrev pub reconciliation_to_response : ReconciliationResult → ReconciliationResponse
reconciliation_to_response r = record {
  wallet_id = r.wallet_id;
  stored_balance = to_string r.stored_balance;
  calculated_balance = to_string r.calculated_balance;
  difference = to_string r.difference;
  consistent = r.consistent;
  checked_entries = r.checked_entries;
}

pub record ProcessResultResponse : Type 0 where
  pub transaction_id : Uuid
  pub status : ResultStatus
  pub balance : Option Bytes
  pub failure_code : FailureCode
  pub idempotent_replay : Bool

-- the body that `SubmitWagerTransaction` writes
abbrev pub process_result_to_response : ProcessResult → ProcessResultResponse
process_result_to_response r = record {
  transaction_id = r.transaction_id;
  status = r.status;
  balance = money_to_ptr r.balance;
  failure_code = r.failure_code;
  idempotent_replay = r.idempotent_replay;
}
