-- ===== src/Postgres/Ledgers.antt =====
-- internal/infra/postgres/ledger_repository.go (`Append` and `SumByWallet`) over the append-only table of
-- migrations/0003_ledger_entries.up.sql
use Prim.Native.Nat.{Ordering}
use Prim.Native.String.{compare}
use wager_service.Base.{
  Bool, not, ◌&&◌, ◌||◌, String, List, [], ◌∷◌, ◌++◌, ◌==◌, any, keep, length, if◌then◌else◌,
}
use wager_service.Base.Int.{ℤ, pos, ◌+ℤ◌, neg_ℤ, ltb_ℤ}
use wager_service.Ids.{Uuid}
use wager_service.Errors.{Result, ok, err, conflict, database}
use wager_service.Money.Int64.{in_int64}
use wager_service.Ledger.{Entry, credit, is_valid}
use wager_service.Wallet.{Wallet}
use wager_service.Ports.{M, LedgerRepository, LedgerSum}
use wager_service.Postgres.Database.{Db, World, LedgerRow, TxRow, to_micros}

-- the VALUES of `Append`
abbrev pub row_of : Entry → LedgerRow
row_of e = record {
  id = e.id;
  wallet_id = e.wallet_id;
  transaction_id = e.transaction_id;
  direction = e.direction;
  amount_minor_units = e.money.minor_units;
  currency = e.money.currency;
  balance_before_minor_units = e.balance_before.minor_units;
  balance_after_minor_units = e.balance_after.minor_units;
  created_at = to_micros e.created_at;
}

-- `ledger_direction_check`, `ledger_amount_positive`, `ledger_balance_after_non_negative`
abbrev pub violates_check : LedgerRow → Bool
violates_check r =
    not (is_valid r.direction)
    || (not (ltb_ℤ (pos 0) r.amount_minor_units) || ltb_ℤ r.balance_after_minor_units (pos 0))

-- the primary key and `ledger_wallet_transaction_unique`
abbrev pub clashes : LedgerRow → LedgerRow → Bool
clashes new r =
    r.id == new.id || r.wallet_id == new.wallet_id && r.transaction_id == new.transaction_id

abbrev is_wallet : Uuid → Wallet → Bool
is_wallet id row = row.id == id

abbrev is_transaction : Uuid → TxRow → Bool
is_transaction id row = row.id == id

abbrev pub refers_to_rows : LedgerRow → Db → Bool
refers_to_rows r db =
    any (is_wallet r.wallet_id) db.wallets && any (is_transaction r.transaction_id) db.transactions

unfoldable pub append : Entry → M World (Unit {0})
append e w =
    if violates_check (row_of e)
    then (err database, w)
    else if any (clashes (row_of e)) w.db.ledger
    then (err conflict, w)
    else if not (refers_to_rows (row_of e) w.db)
    then (err database, w)
    else (ok tt, record w { db = record w.db { ledger = w.db.ledger ++ row_of e ∷ [] } })

-- `CASE WHEN direction = 'CREDIT' THEN amount_minor_units ELSE -amount_minor_units END`
abbrev pub signed_units : LedgerRow → ℤ
signed_units r = elim r.direction [ credit ↦ r.amount_minor_units | _ ↦ neg_ℤ r.amount_minor_units ]

-- `SUM`, which does not wrap
abbrev pub sum : List LedgerRow → ℤ
sum [] = pos 0
sum (r ∷ rows) = signed_units r +ℤ sum rows

-- `MAX(currency)`
abbrev max_text : String → String → String
max_text s t = elim (compare s t) [ Ordering.lt ↦ t | _ ↦ s ]

abbrev pub max_currency : LedgerRow → List LedgerRow → String
max_currency r [] = r.currency
max_currency r (r' ∷ rows) = max_text r.currency (max_currency r' rows)

abbrev pub of_wallet : Uuid → LedgerRow → Bool
of_wallet id r = r.wallet_id == id

-- With no rows `SUM` and `MAX` are NULL. A sum that an `int64` cannot hold fails to scan.
abbrev pub summary : List LedgerRow → Result LedgerSum
summary [] = ok (record { minor_units = pos 0; currency = ""; count = 0 })
summary (r ∷ rows) =
    if in_int64 (sum (r ∷ rows))
    then ok (record {
      minor_units = sum (r ∷ rows);
      currency = max_currency r rows;
      count = length (r ∷ rows);
    })
    else err database

unfoldable pub sum_by_wallet : Uuid → M World LedgerSum
sum_by_wallet id w = (summary (keep (of_wallet id) w.db.ledger), w)

abbrev pub repository : LedgerRepository World
repository = record { append = append; sum_by_wallet = sum_by_wallet }
