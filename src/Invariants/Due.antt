-- ===== src/Invariants/Due.antt =====
-- internal/infra/postgres/wager_transaction_repository.go: the amounts of what `ListPendingReferenceDue` reads.
use wager_service.Base.{arith, ℕ, zero, suc, ◌≡◌, refl, List, [], ◌∷◌, All, take}
use wager_service.Base.Int.{ℤ, pos, negsuc}
use wager_service.Base.Sorting.{All-sort, All-keep}
use wager_service.Ids.{Time}
use wager_service.Errors.{Result, ◌>>=◌, ok, err, database}
use wager_service.Money.{from_minor_units}
use wager_service.Money.Arithmetic.{Fits}
use wager_service.Money.Int64.{IsInt64}
use wager_service.Wager
use wager_service.Wager.{Transaction}
use wager_service.Postgres.Database.{World, TxRow, limited}
use wager_service.Postgres.Transactions

-- The amount of a row is an `int64`, as its column is a BIGINT.
abbrev pub HasInt64 : TxRow → Type 0
HasInt64 r = IsInt64 r.amount_minor_units

-- What is read fits an `int64`, if it is read at all.
abbrev pub AllFit : Result (List Transaction) → Type 0
AllFit (ok due) = All (λ tx. Fits tx.money) due
AllFit (err e) = Unit

row-Fits :
    (r : TxRow) (tx : Transaction)
    → Transactions.rehydrate_row r ≡ ok tx
    → HasInt64 r
    → Fits tx.money
unfolding Transactions.rehydrate_row from_minor_units Wager.rehydrate
row-Fits r tx e h = ground (arith, h)

take-All : (P : TxRow → Type 0) (n : ℕ) (rows : List TxRow) → All P rows → All P (take n rows)
take-All P zero rows h = tt
take-All P (suc n) [] h = tt
take-All P (suc n) (r ∷ rows) (p, h) = (p, take-All P n rows h)

-- one more row
read_on :
    (t : Result Transaction) (ts : Result (List Transaction))
    → ((tx : Transaction) → t ≡ ok tx → Fits tx.money)
    → AllFit ts
    → AllFit (do tx ← t; txs ← ts; ok (tx ∷ txs))
read_on (ok tx) (ok txs) k h = (k tx refl, h)
read_on (ok tx) (err e) k h = tt
read_on (err e) ts k h = tt

scan-AllFit : (rows : List TxRow) → All HasInt64 rows → AllFit (Transactions.scan_all rows)
scan-AllFit [] h = tt
scan-AllFit (r ∷ rows) (p, h) =
    read_on (Transactions.rehydrate_row r) (Transactions.scan_all rows) (λ tx e. row-Fits r tx e p)
      (scan-AllFit rows h)

limited-AllFit :
    (n : ℤ) (rows : List TxRow)
    → All HasInt64 rows
    → AllFit (limited n rows >>= Transactions.scan_all)
limited-AllFit (pos n) rows h = scan-AllFit (take n rows) (take-All HasInt64 n rows h)
limited-AllFit (negsuc n) rows h = tt

pub due-AllFit :
    (now : Time) (n : ℤ) (w : World)
    → All HasInt64 w.db.transactions
    → AllFit (Transactions.list_pending_reference_due now n w).0
unfolding Transactions.list_pending_reference_due
due-AllFit now n w h = limited-AllFit n _ (
    All-sort Transactions.retries_before HasInt64 _
      (All-keep (Transactions.is_due now) HasInt64 _ h))

-- the answer of a query that no row meets
abbrev pub nothing_due : ℤ → Result (List Transaction)
nothing_due (pos n) = ok []
nothing_due (negsuc n) = err database

take-nil : (n : ℕ) → ◌≡◌ {A = List TxRow} (take n []) []
take-nil zero = refl
take-nil (suc n) = refl

pub limited-nil : (n : ℤ) → limited n [] >>= Transactions.scan_all ≡ nothing_due n
limited-nil (pos n) = rw (take-nil n) refl
limited-nil (negsuc n) = refl
