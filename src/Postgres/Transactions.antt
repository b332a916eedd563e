-- ===== src/Postgres/Transactions.antt =====
-- internal/infra/postgres/wager_transaction_repository.go over the table of
-- migrations/0002_wager_transactions.up.sql
use wager_service.Base.{
  ℕ, Bool, true, false, not, ◌&&◌, ◌||◌, String, Option, none, some, List, [], ◌∷◌, ◌++◌, ◌==◌, leb,
  str_eq, find, keep, update, any, sort_by, length, if◌then◌else◌,
}
use wager_service.Base.Int.{ℤ, pos, ltb_ℤ}
use wager_service.Ids.{Uuid, Time, is_nil}
use wager_service.Errors.{Result, ◌>>=◌, ok, err, conflict, not_found, database}
use wager_service.Money.{Money, from_minor_units}
use wager_service.Wager
use wager_service.Wager.{
  Transaction, Kind, Status, kind_eq, status_eq, processed, pending_reference, other, is_blank,
}
use wager_service.Wallet.{Wallet}
use wager_service.Ports.{M, WagerTransactionRepository}
use wager_service.Postgres.Database.{Db, World, TxRow, limited, to_micros}

-- `deref`
abbrev pub deref : Option String → String
deref none = ""
deref (some s) = s

-- `nullableString`
abbrev pub nullable : String → Option String
nullable s = if is_blank s then none else some s

-- `toPgUUIDPtr`: the nil UUID is not valid, so it is stored as NULL
abbrev pub nullable_uuid : Option Uuid → Option Uuid
nullable_uuid none = none
nullable_uuid (some id) = if is_nil id then none else some id

-- `resultingBalanceMinorUnits`
abbrev pub resulting_balance_minor_units : Option Money → Option ℤ
resulting_balance_minor_units none = none
resulting_balance_minor_units (some m) = some m.minor_units

abbrev pub rehydrate_balance : Option ℤ → String → Result (Option Money)
rehydrate_balance none currency = ok none
rehydrate_balance (some units) currency = do b ← from_minor_units units currency; ok (some b)

-- `rehydrateWagerTxRow`, and `scanWagerTx` behind the query
unfoldable pub rehydrate_row : TxRow → Result Transaction
rehydrate_row r = do
  amount ← from_minor_units r.amount_minor_units r.currency
  resulting_balance ← rehydrate_balance r.resulting_balance_minor_units r.currency
  Wager.rehydrate (record {
    id = r.id;
    provider_id = deref r.provider_id;
    external_transaction_id = deref r.external_transaction_id;
    idempotency_key = deref r.idempotency_key;
    payload_hash = deref r.payload_hash;
    wallet_id = r.wallet_id;
    player_id = r.player_id;
    round_id = deref r.round_id;
    game_id = deref r.game_id;
    kind = r.kind;
    money = amount;
    reference_external_transaction_id = deref r.reference_external_transaction_id;
    resolved_reference_transaction_id = r.resolved_reference_transaction_id;
    status = r.status;
    failure_code = r.failure_code;
    resulting_balance = resulting_balance;
    created_at = r.created_at;
    updated_at = r.updated_at;
  })

abbrev pub scan_found : Option TxRow → Result Transaction
scan_found none = err not_found
scan_found (some r) = rehydrate_row r

-- SQL's `column = $1`, which NULL never satisfies
abbrev pub is_text : Option String → String → Bool
is_text none t = false
is_text (some s) t = str_eq s t

abbrev pub has_id : Uuid → TxRow → Bool
has_id id r = r.id == id

abbrev pub has_external_id : String → String → TxRow → Bool
has_external_id provider external r =
    is_text r.provider_id provider && is_text r.external_transaction_id external

abbrev pub has_idempotency_key : String → String → TxRow → Bool
has_idempotency_key provider key r = is_text r.provider_id provider && is_text r.idempotency_key key

unfoldable pub find_by_id : Uuid → M World Transaction
find_by_id id w = (scan_found (find (has_id id) w.db.transactions), w)

unfoldable pub find_by_provider_and_external_id : String → String → M World Transaction
find_by_provider_and_external_id provider external w =
    (scan_found (find (has_external_id provider external) w.db.transactions), w)

unfoldable pub find_by_idempotency_key : String → String → M World Transaction
find_by_idempotency_key provider key w =
    (scan_found (find (has_idempotency_key provider key) w.db.transactions), w)

-- The VALUES of `Create`. The two columns of the retry schedule have their defaults.
abbrev pub row_of : Transaction → TxRow
row_of tx = record {
  id = tx.id;
  provider_id = nullable tx.provider_id;
  external_transaction_id = nullable tx.external_transaction_id;
  idempotency_key = nullable tx.idempotency_key;
  payload_hash = nullable tx.payload_hash;
  wallet_id = tx.wallet_id;
  player_id = tx.player_id;
  round_id = nullable tx.round_id;
  game_id = nullable tx.game_id;
  kind = tx.kind;
  amount_minor_units = tx.money.minor_units;
  currency = tx.money.currency;
  reference_external_transaction_id = nullable tx.reference_external_transaction_id;
  resolved_reference_transaction_id = nullable_uuid tx.resolved_reference_transaction_id;
  status = tx.status;
  failure_code = tx.failure_code;
  resulting_balance_minor_units = resulting_balance_minor_units tx.resulting_balance;
  pending_reference_attempts = 0;
  pending_reference_next_retry_at = none;
  created_at = to_micros tx.created_at;
  updated_at = to_micros tx.updated_at;
}

-- equal and neither NULL
abbrev pub same_text : Option String → Option String → Bool
same_text none t = false
same_text (some s) t = is_text t s

-- the primary key and the two unique indexes, which leave out rows with no provider
abbrev pub clashes : TxRow → TxRow → Bool
clashes new r =
    r.id == new.id
    || same_text r.provider_id new.provider_id
      && (same_text r.external_transaction_id new.external_transaction_id
          || same_text r.idempotency_key new.idempotency_key)

abbrev is_other : Kind → Bool
is_other (other s) = true
is_other _ = false

-- `wager_tx_kind_check` and `wager_tx_amount_non_negative`; a `Status` is always in its CHECK
abbrev pub violates_check : TxRow → Bool
violates_check r = is_other r.kind || ltb_ℤ r.amount_minor_units (pos 0)

abbrev is_wallet : Uuid → Wallet → Bool
is_wallet id row = row.id == id

-- the foreign key of the resolved reference
abbrev pub refers : Option Uuid → List TxRow → Bool
refers none rows = true
refers (some id) rows = any (has_id id) rows

abbrev pub refers_to_rows : TxRow → Db → Bool
refers_to_rows r db =
    any (is_wallet r.wallet_id) db.wallets
    && refers r.resolved_reference_transaction_id (db.transactions ++ r ∷ [])

abbrev pub with_transactions : List TxRow → World → World
with_transactions rows w = record w { db = record w.db { transactions = rows } }

unfoldable pub create : Transaction → M World (Unit {0})
create tx w =
    if violates_check (row_of tx)
    then (err database, w)
    else if any (clashes (row_of tx)) w.db.transactions
    then (err conflict, w)
    else if not (refers_to_rows (row_of tx) w.db)
    then (err database, w)
    else (ok tt, with_transactions (w.db.transactions ++ row_of tx ∷ []) w)

-- the SET of `Save`
abbrev pub overwrite : Transaction → TxRow → TxRow
overwrite tx r = record r {
  status = tx.status;
  failure_code = tx.failure_code;
  resolved_reference_transaction_id = nullable_uuid tx.resolved_reference_transaction_id;
  resulting_balance_minor_units = resulting_balance_minor_units tx.resulting_balance;
  updated_at = to_micros tx.updated_at;
}

-- An UPDATE that meets no row is no error.
unfoldable pub save : Transaction → M World (Unit {0})
save tx w =
    if any (has_id tx.id) w.db.transactions
      && not (refers (nullable_uuid tx.resolved_reference_transaction_id) w.db.transactions)
    then (err database, w)
    else (ok tt, with_transactions (update (has_id tx.id) (overwrite tx) w.db.transactions) w)

-- SQL's `column <= $1`, which NULL never satisfies
abbrev pub is_due_at : Option Time → Time → Bool
is_due_at none now = false
is_due_at (some t) now = leb t now

abbrev pub is_due : Time → TxRow → Bool
is_due now r =
    status_eq r.status pending_reference && is_due_at r.pending_reference_next_retry_at now

abbrev retry_time : Option Time → Time
retry_time none = 0
retry_time (some t) = t

abbrev pub retries_before : TxRow → TxRow → Bool
retries_before r r' =
    leb (retry_time r.pending_reference_next_retry_at)
      (retry_time r'.pending_reference_next_retry_at)

abbrev pub scan_all : List TxRow → Result (List Transaction)
scan_all [] = ok []
scan_all (r ∷ rows) = do tx ← rehydrate_row r; txs ← scan_all rows; ok (tx ∷ txs)

unfoldable pub list_pending_reference_due : Time → ℤ → M World (List Transaction)
list_pending_reference_due now n w =
    (limited n (sort_by retries_before (keep (is_due now) w.db.transactions)) >>= scan_all, w)

abbrev pub reschedule : ℕ → Time → TxRow → TxRow
reschedule attempts next_retry_at r = record r {
  pending_reference_attempts = attempts;
  pending_reference_next_retry_at = some (to_micros next_retry_at);
}

unfoldable pub record_pending_reference_attempt : Uuid → ℕ → Time → M World (Unit {0})
record_pending_reference_attempt id attempts next_retry_at w = (
  ok tt,
  with_transactions (update (has_id id) (reschedule attempts next_retry_at) w.db.transactions) w,
)

abbrev pub is_id : Option Uuid → Uuid → Bool
is_id none id = false
is_id (some i) id = i == id

abbrev pub reverses : Uuid → Kind → TxRow → Bool
reverses id kind r =
    is_id r.resolved_reference_transaction_id id
    && (kind_eq r.kind kind && status_eq r.status processed)

unfoldable pub count_successful_reversals : Uuid → Kind → M World ℕ
count_successful_reversals id kind w = (ok (length (keep (reverses id kind) w.db.transactions)), w)

abbrev pub repository : WagerTransactionRepository World
repository = record {
  find_by_id = find_by_id;
  find_by_provider_and_external_id = find_by_provider_and_external_id;
  find_by_idempotency_key = find_by_idempotency_key;
  create = create;
  save = save;
  list_pending_reference_due = list_pending_reference_due;
  record_pending_reference_attempt = record_pending_reference_attempt;
  count_successful_reversals = count_successful_reversals;
}
