-- ===== src/Invariants/Balance.antt =====
-- The books: every wallet's stored balance is the sum of its ledger entries
-- (internal/infra/postgres/wallet_repository.go and ledger_repository.go).
use wager_service.Base.{
  arith, ◌≡◌, refl, sym, false, Option, none, some, List, [], ◌∷◌, ◌++◌, All, All-append, keep,
  find, ◌==◌, find-test, if◌then◌else◌,
}
use wager_service.Base.Int.{pos, ◌+ℤ◌, ◌≤ℤ◌, int_laws, +ℤ_assoc}
use wager_service.Ids.{Uuid}
use wager_service.Errors.{ok}
use wager_service.Money.{from_minor_units}
use wager_service.Money.Arithmetic.{Fits}
use wager_service.Wallet
use wager_service.Invariants.Posting.{Posts}
use wager_service.Wallet.{Wallet}
use wager_service.Postgres.Database.{Db, LedgerRow}
use wager_service.Postgres.Wallets
use wager_service.Postgres.Ledgers

-- The entries of one wallet, and their sum.
abbrev pub entries : Uuid → Db → List LedgerRow
entries id db = keep (Ledgers.of_wallet id) db.ledger

abbrev pub wallet_row : Uuid → Db → Option Wallet
wallet_row id db = find (Wallets.has_id id) db.wallets

-- What the entries of a wallet say of its row.
pub record Agrees (row : Wallet) (rows : List LedgerRow) : Type 0 where
  pub sum : row.balance.minor_units ≡ Ledgers.sum rows
  pub solvent : pos 0 ≤ℤ row.balance.minor_units
  pub fits : Fits row.balance
  pub currency : All (λ r. r.currency ≡ row.balance.currency) rows

-- What the entries are where the wallet is, and where it is not.
abbrev pub Accounted : Option Wallet → List LedgerRow → Type 0
Accounted none rows = rows ≡ []
Accounted (some row) rows = Agrees row rows

pub record Balanced (db : Db) : Type 0 where
  pub at : (id : Uuid) → Accounted (wallet_row id db) (entries id db)

sum-append :
    (rows : List LedgerRow) (r : LedgerRow)
    → Ledgers.sum (rows ++ r ∷ []) ≡ Ledgers.sum rows +ℤ Ledgers.signed_units r
sum-append [] r = omega int_laws
sum-append (x ∷ rows) r =
    rw (sum-append rows r)
      (sym (+ℤ_assoc (Ledgers.signed_units x) (Ledgers.sum rows) (Ledgers.signed_units r)))

-- What a lookup finds is the row itself.
pub found-row :
    (id : Uuid) (db : Db) (w : Wallet)
    → Wallets.lookup id db ≡ ok w
    → (wallet_row id db ≡ some w) × (w.id ≡ id)
unfolding Wallets.lookup Wallets.scan_wallet from_minor_units Wallet.rehydrate
found-row id db w e = ground (arith, find-test (Wallets.has_id id) db.wallets w)

module _ (w₀ w : Wallet) (r : LedgerRow) (posts : Posts w₀ w r) where
  Agrees-moved :
      (rows : List LedgerRow) → Agrees w₀ rows → Agrees (Wallets.overwrite w w₀) (rows ++ r ∷ [])
  Agrees-moved rows a = record {
    sum = rw (sum-append rows r, sym a.sum) posts.shift;
    solvent = posts.solvent;
    fits = posts.fits;
    currency =
        All-append (λ r. r.currency ≡ w₀.balance.currency) rows r a.currency posts.same_currency;
  }

  abbrev pub moved_row : Wallet → Wallet
  moved_row row = if Wallets.is_version w.id w₀.version row then Wallets.overwrite w row else row

  pub moved_own :
      (found : Option Wallet) (rows : List LedgerRow)
      → found ≡ some w₀
      → Accounted found rows
      → Accounted (elim found [ some y ↦ some (moved_row y) | none ↦ none ]) (rows ++ r ∷ [])
  moved_own found rows e a = ground (arith, Agrees-moved rows, posts.same_id)

  pub moved_other :
      (id : Uuid) (found : Option Wallet) (rows : List LedgerRow)
      → ((row : Wallet) → found ≡ some row → row.id ≡ id)
      → ((r.wallet_id == id) ≡ false)
      → Accounted found rows
      → Accounted (elim found [ some y ↦ some (moved_row y) | none ↦ none ]) rows
  moved_other id none rows h n a = a
  moved_other id (some row) rows h n a =
      ground (arith, h row refl, posts.same_wallet, posts.same_id)
