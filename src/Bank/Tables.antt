-- ===== src/Bank/Tables.antt =====
-- The abstract bank of the table of wallets (internal/infra/postgres/wallet_repository.go), and what its writes
-- do to it.
use wager_service.Base.{
  arith, ℕ, ◌≡◌, refl, true, Option, none, some, List, [], ◌∷◌, ◌++◌, ◌==◌, update, find,
  find-update, find-append, find-test, subst, if◌then◌else◌,
}
use wager_service.Ids.{Uuid}
use wager_service.Money.{Money}
use wager_service.Wallet.{Wallet}
use wager_service.Postgres.Wallets
use wager_service.Bank.{Bank, Unmoved, put}

abbrev pub balance_of : Option Wallet → Option Money
balance_of none = none
balance_of (some row) = some row.balance

-- what the table says of the balances
abbrev pub bank_of : List Wallet → Bank
bank_of rows id = balance_of (find (Wallets.has_id id) rows)

pub bank-same : (rows rows' : List Wallet) → rows' ≡ rows → Unmoved (bank_of rows) (bank_of rows')
bank-same rows rows' e id = rw e refl

appended :
    (found : Option Wallet) (w : Wallet) (id : Uuid)
    → ((w.id == id) ≡ true → found ≡ none)
    → balance_of
        (elim found [ some y ↦ some y | none ↦ if Wallets.has_id id w then some w else none ])
      ≡ (if w.id == id then some w.balance else balance_of found)
appended none w id h = ground arith
appended (some y) w id h = ground (arith, h)

same_number : (i j : ℕ) → (i == j) ≡ true → i ≡ j
same_number i j e = ground arith

free_at :
    (rows : List Wallet) (w : Wallet) (id : Uuid)
    → find (Wallets.has_id w.id) rows ≡ none
    → (w.id == id) ≡ true
    → find (Wallets.has_id id) rows ≡ none
free_at rows w id free e =
    subst (λ i. find (Wallets.has_id i) rows ≡ none) (same_number w.id id e) free

-- An INSERT puts a balance at a free identifier.
pub bank-append :
    (rows : List Wallet) (w : Wallet)
    → find (Wallets.has_id w.id) rows ≡ none
    → Unmoved (put w.id w.balance (bank_of rows)) (bank_of (rows ++ w ∷ []))
bank-append rows w free id =
    rw (find-append (Wallets.has_id id) rows w)
      (appended (find (Wallets.has_id id) rows) w id (free_at rows w id free))

updated :
    (found : Option Wallet) (w₀ w : Wallet) (id : Uuid)
    → w.id ≡ w₀.id
    → ((row : Wallet) → found ≡ some row → row.id ≡ id)
    → (w₀.id ≡ id → found ≡ some w₀)
    → balance_of (elim found [
      | some y ↦ some (if Wallets.is_version w.id w₀.version y then Wallets.overwrite w y else y)
      | none ↦ none
    ])
      ≡ (if w₀.id == id
          then some (record w₀.balance { minor_units = w.balance.minor_units })
          else balance_of found)
updated none w₀ w id same named own = ground (arith, own)
updated (some y) w₀ w id same named own = ground (arith, own, named y refl)

-- An UPDATE of the row that was read puts its new amount where its balance was.
pub bank-update :
    (rows : List Wallet) (w₀ w : Wallet)
    → w.id ≡ w₀.id
    → find (Wallets.has_id w₀.id) rows ≡ some w₀
    → Unmoved
        (put w₀.id (record w₀.balance { minor_units = w.balance.minor_units }) (bank_of rows))
        (bank_of (update (Wallets.is_version w.id w₀.version) (Wallets.overwrite w) rows))
bank-update rows w₀ w same stored id =
    rw
      (find-update (Wallets.has_id id) (Wallets.is_version w.id w₀.version) (Wallets.overwrite w)
        (λ x. refl) rows)
      (updated (find (Wallets.has_id id) rows) w₀ w id same
        (λ row e. ground (arith, find-test (Wallets.has_id id) rows row e))
        (λ e. subst (λ i. find (Wallets.has_id i) rows ≡ some w₀) e stored))
