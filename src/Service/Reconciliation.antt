-- ===== src/Service/Reconciliation.antt =====
-- internal/application/reconciliation.go on books that are in order.
use wager_service.Base.{arith, ℕ, ◌≡◌, refl, sym, true, String, List, [], ◌∷◌, All, length, eq_refl}
use wager_service.Base.Int.{ℤ, pos, int_laws, ◌+ℤ◌, neg_ℤ, ◌≤ℤ◌}
use wager_service.Ids.{Uuid}
use wager_service.Errors.{Result, ok, err, invalid_currency, ◌>>=◌}
use wager_service.Money.{Money, from_minor_units, subtract, is_zero, normalize_currency}
use wager_service.Money.Int64.{in_int64}
use wager_service.Money.Arithmetic.{Fits, subtract_exact}
use wager_service.Wallet
use wager_service.Wallet.{Wallet}
use wager_service.Ports
use wager_service.Ports.{LedgerSum, continue}
use wager_service.Postgres.{postgres}
use wager_service.Postgres.Database.{Db, World, LedgerRow}
use wager_service.Postgres.Wallets
use wager_service.Postgres.Ledgers
use wager_service.Reconcile
use wager_service.Reconcile.{ReconciliationResult}
use wager_service.Invariants.Balance.{Balanced, entries, Agrees}
use wager_service.Invariants.Books.{Found-Agrees}

-- What reconciliation should answer: a wallet agrees with its entries. A wallet with no entry has an
-- empty currency to compare with, which is refused.
abbrev pub answered : Uuid → Result Wallet → List LedgerRow → Result ReconciliationResult
answered id (err e) rows = err e
answered id (ok w) [] = err invalid_currency
answered id (ok w) (r ∷ rows) = ok (record {
  wallet_id = id;
  stored_balance = w.balance;
  calculated_balance = w.balance;
  difference = record w.balance { minor_units = pos 0 };
  consistent = true;
  checked_entries = length (r ∷ rows);
})

-- the body of the transaction, on what its two reads returned
abbrev compared : Uuid → Result Wallet → Result LedgerSum → Result ReconciliationResult
compared id found summed = do
  w ← found
  sum ← summed
  calculated ← from_minor_units sum.minor_units sum.currency
  difference ← subtract w.balance calculated
  ok (record {
    wallet_id = id;
    stored_balance = w.balance;
    calculated_balance = calculated;
    difference = difference;
    consistent = is_zero difference;
    checked_entries = sum.count;
  })

execute-compared :
    (v7 : ℕ → Uuid) (id : Uuid) (w : World)
    → Reconcile.execute (postgres v7) id w
      ≡ (compared id (Wallets.lookup id w.db) (Ledgers.summary (entries id w.db)), w)
unfolding Reconcile.execute Reconcile.execute_body Wallets.find_by_id Ledgers.sum_by_wallet
    Ports.◌>>=◌
execute-compared v7 id w = ground arith

max_currency_same :
    (r : LedgerRow) (rows : List LedgerRow) (c : String)
    → r.currency ≡ c
    → All (λ r. r.currency ≡ c) rows
    → Ledgers.max_currency r rows ≡ c
max_currency_same r [] c e h = e
max_currency_same r (r' ∷ rows) c e h = ground (arith, max_currency_same r' rows c h.0 h.1)

module _ (row : Wallet) (r : LedgerRow) (rows : List LedgerRow)
    (agrees : Agrees row (r ∷ rows)) where
  in_range : in_int64 row.balance.minor_units ≡ true
  in_range = ground (arith, agrees.fits)

  summed :
      Ledgers.summary (r ∷ rows)
      ≡ ok (record {
        minor_units = row.balance.minor_units;
        currency = row.balance.currency;
        count = length (r ∷ rows);
      })
  summed =
      rw
        (
          sym agrees.sum,
          in_range,
          max_currency_same r rows row.balance.currency agrees.currency.0 agrees.currency.1,
        )
        refl

+ℤ_neg : (a : ℤ) → a +ℤ neg_ℤ a ≡ pos 0
+ℤ_neg a = omega int_laws

subtract_self :
    (m : Money)
    → Fits m
    → pos 0 ≤ℤ m.minor_units
    → subtract m m ≡ ok (record m { minor_units = pos 0 })
subtract_self m fits h =
    ground (arith, subtract_exact m m fits fits, +ℤ_neg m.minor_units, eq_refl m.currency)

found-currency :
    (id : Uuid) (db : Db) (row : Wallet)
    → Wallets.lookup id db ≡ ok row
    → from_minor_units row.balance.minor_units row.balance.currency ≡ ok row.balance
unfolding Wallets.lookup Wallets.scan_wallet Wallet.rehydrate from_minor_units
found-currency id db row e = ground arith

no-currency : from_minor_units (pos 0) "" ≡ err invalid_currency
unfolding from_minor_units normalize_currency
no-currency = refl

agreed :
    (id : Uuid) (row : Wallet) (rows : List LedgerRow)
    → from_minor_units row.balance.minor_units row.balance.currency ≡ ok row.balance
    → Agrees row rows
    → compared id (ok row) (Ledgers.summary rows) ≡ answered id (ok row) rows
agreed id row [] c a = rw no-currency refl
agreed id row (r ∷ rows) c a =
    ground (arith, summed row r rows a, subtract_self row.balance a.fits a.solvent)

answered_at :
    (id : Uuid) (db : Db) (found : Result Wallet)
    → Balanced db
    → Wallets.lookup id db ≡ found
    → compared id found (Ledgers.summary (entries id db)) ≡ answered id found (entries id db)
answered_at id db (err e) b h = refl
answered_at id db (ok row) b h =
    agreed id row (entries id db) (found-currency id db row h) (Found-Agrees id db row (b, h))

-- Reconciliation in a database whose books are in order: it changes nothing, and answers for a wallet
-- that is found that stored and calculated balance are equal, with the number of the entries; for one
-- that has no entries it answers `ErrInvalidCurrency`; and it passes on the error of the lookup.
pub reconcile_exact :
    (v7 : ℕ → Uuid) (id : Uuid) (w : World)
    → Balanced w.db
    → Reconcile.execute (postgres v7) id w
      ≡ (answered id (Wallets.lookup id w.db) (entries id w.db), w)
reconcile_exact v7 id w b =
    rw (execute-compared v7 id w, answered_at id w.db (Wallets.lookup id w.db) b refl) refl
