-- ===== src/Queries.antt =====
-- internal/application/queries.go: the reads that the handlers use. `ListByWallet`, which nothing else calls,
-- is a parameter beside the ports.
use wager_service.Base.{String, List}
use wager_service.Base.Int.{ℤ}
use wager_service.Ids.{Uuid}
use wager_service.Money.Decimal.{Bytes}
use wager_service.Wallet.{Wallet}
use wager_service.Wager.{Transaction}
use wager_service.Ledger.{Entry}
use wager_service.Ports.{M, Ports}

abbrev pub ListByWallet : Type 0 → Type 0
ListByWallet S = Uuid → Bytes → ℤ → M S (List Entry × Bytes)

module _ {S : Type 0} (P : Ports S) where
  abbrev pub get_wallet : Uuid → M S Wallet
  get_wallet id = P.wallets.find_by_id id

  abbrev pub get_ledger_page : ListByWallet S → Uuid → Bytes → ℤ → M S (List Entry × Bytes)
  get_ledger_page list_by_wallet wallet_id cursor limit = list_by_wallet wallet_id cursor limit

  abbrev pub get_transaction : Uuid → M S Transaction
  get_transaction id = P.txs.find_by_id id

  abbrev pub get_transaction_by_external_id : String → String → M S Transaction
  get_transaction_by_external_id provider_id external_transaction_id =
      P.txs.find_by_provider_and_external_id provider_id external_transaction_id
