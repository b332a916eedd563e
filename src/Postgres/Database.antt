-- ===== src/Postgres/Database.antt =====
-- The tables of migrations/*.up.sql as lists of rows, in the order of insertion.
use wager_service.Base.{ℕ, ◌/◌, ◌*◌, String, Option, none, some, List, take}
use wager_service.Base.Int.{ℤ, pos, negsuc}
use wager_service.Ids.{Uuid, Time}
use wager_service.Errors.{Error, Result, ok, err, database, FailureCode}
use wager_service.Wallet.{Wallet}
use wager_service.Wager.{Kind, Status}
use wager_service.Ledger.{Direction}
use wager_service.Ports.{InboxRecord, OutboxRecord}

-- A row of `wager_transactions`, nullable columns as options. The row has one currency.
pub record TxRow : Type 0 where
  pub id : Uuid
  pub provider_id : Option String
  pub external_transaction_id : Option String
  pub idempotency_key : Option String
  pub payload_hash : Option String
  pub wallet_id : Uuid
  pub player_id : Uuid
  pub round_id : Option String
  pub game_id : Option String
  pub kind : Kind
  pub amount_minor_units : ℤ
  pub currency : String
  pub reference_external_transaction_id : Option String
  pub resolved_reference_transaction_id : Option Uuid
  pub status : Status
  pub failure_code : FailureCode
  pub resulting_balance_minor_units : Option ℤ
  pub pending_reference_attempts : ℕ
  pub pending_reference_next_retry_at : Option Time
  pub created_at : Time
  pub updated_at : Time

-- A row of `ledger_entries`. It too has one currency.
pub record LedgerRow : Type 0 where
  pub id : Uuid
  pub wallet_id : Uuid
  pub transaction_id : Uuid
  pub direction : Direction
  pub amount_minor_units : ℤ
  pub currency : String
  pub balance_before_minor_units : ℤ
  pub balance_after_minor_units : ℤ
  pub created_at : Time

-- A row of `wallets` has the columns of a `Wallet`, its currency being that of the balance.
pub record Db : Type 0 where
  pub wallets : List Wallet
  pub transactions : List TxRow
  pub ledger : List LedgerRow
  pub inbox : List InboxRecord
  pub outbox : List OutboxRecord

-- The database, and how many identifiers the service has drawn.
pub record World : Type 0 where
  pub db : Db
  pub drawn : ℕ

-- What a TIMESTAMPTZ column keeps of an instant: whole microseconds, the rest is cut off.
unfoldable pub to_micros : Time → Time
to_micros t = t / 1000 * 1000

abbrev pub to_micros_or_null : Option Time → Option Time
to_micros_or_null none = none
to_micros_or_null (some t) = some (to_micros t)

-- SQL's `LIMIT`, which may not be negative
abbrev pub limited : {A : Type 0} → ℤ → List A → Result (List A)
limited (pos n) rows = ok (take n rows)
limited (negsuc n) rows = err database

abbrev pub found : {A : Type 0} → Option A → Error → Result A
found none e = err e
found (some a) e = ok a
