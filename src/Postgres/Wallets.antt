-- ===== src/Postgres/Wallets.antt =====
-- internal/infra/postgres/wallet_repository.go over the table of migrations/0001_wallets.up.sql
use wager_service.Base.{
  Bool, not, ◌&&◌, ◌||◌, String, Option, none, some, [], ◌∷◌, ◌++◌, ◌==◌, str_eq, find, update, any,
  if◌then◌else◌,
}
use wager_service.Base.Int.{ℤ, pos, ltb_ℤ, eqb_ℤ}
use wager_service.Ids.{Uuid}
use wager_service.Errors.{Result, ◌>>=◌, ok, err, conflict, not_found, database, optimistic_lock}
use wager_service.Money.{is_negative, from_minor_units}
use wager_service.Wallet
use wager_service.Wallet.{Wallet}
use wager_service.Ports.{M, WalletRepository}
use wager_service.Postgres.Database.{Db, World, to_micros}

-- `scanWallet`
unfoldable pub scan_wallet : Wallet → Result Wallet
scan_wallet row = do
  balance ← from_minor_units row.balance.minor_units row.balance.currency
  Wallet.rehydrate row.id row.player_id balance row.version row.created_at row.updated_at

abbrev scan_found : Option Wallet → Result Wallet
scan_found none = err not_found
scan_found (some row) = scan_wallet row

abbrev pub has_id : Uuid → Wallet → Bool
has_id id row = row.id == id

-- the query of `FindByID`
unfoldable pub lookup : Uuid → Db → Result Wallet
lookup id db = scan_found (find (has_id id) db.wallets)

-- `FindByID`, and `FindByIDForUpdate`, whose lock holds off other transactions
unfoldable pub find_by_id : Uuid → M World Wallet
find_by_id id w = (lookup id w.db, w)

abbrev has_player_and_currency : Uuid → String → Wallet → Bool
has_player_and_currency player_id currency row =
    row.player_id == player_id && str_eq row.balance.currency currency

unfoldable pub find_by_player_and_currency : Uuid → String → M World Wallet
find_by_player_and_currency player_id currency w =
    (scan_found (find (has_player_and_currency player_id currency) w.db.wallets), w)

-- the table's primary key and `wallets_player_currency_unique`
abbrev pub clashes : Wallet → Wallet → Bool
clashes new row = row.id == new.id || has_player_and_currency new.player_id new.balance.currency row

-- `wallets_balance_non_negative` and `wallets_version_positive`
abbrev pub violates_check : Wallet → Bool
violates_check row = is_negative row.balance || ltb_ℤ row.version (pos 1)

-- the VALUES of `Create`
abbrev pub stored : Wallet → Wallet
stored wallet = record wallet {
  created_at = to_micros wallet.created_at;
  updated_at = to_micros wallet.updated_at;
}

unfoldable pub create : Wallet → M World (Unit {0})
create wallet w =
    if violates_check wallet
    then (err database, w)
    else if any (clashes wallet) w.db.wallets
    then (err conflict, w)
    else (ok tt, record w { db = record w.db { wallets = w.db.wallets ++ stored wallet ∷ [] } })

abbrev pub is_version : Uuid → ℤ → Wallet → Bool
is_version id expected row = row.id == id && eqb_ℤ row.version expected

-- the SET of `Save`: the row keeps its currency
abbrev pub overwrite : Wallet → Wallet → Wallet
overwrite wallet row = record row {
  balance = record row.balance { minor_units = wallet.balance.minor_units };
  version = wallet.version;
  updated_at = to_micros wallet.updated_at;
}

unfoldable pub save : Wallet → ℤ → M World (Unit {0})
save wallet expected w =
    if not (any (is_version wallet.id expected) w.db.wallets)
    then (err optimistic_lock, w)
    else if violates_check wallet
    then (err database, w)
    else (
      ok tt,
      record w {
        db = record w.db {
          wallets = update (is_version wallet.id expected) (overwrite wallet) w.db.wallets;
        };
      },
    )

abbrev pub repository : WalletRepository World
repository = record {
  find_by_id = find_by_id;
  find_by_player_and_currency = find_by_player_and_currency;
  find_by_id_for_update = find_by_id;
  create = create;
  save = save;
}
