-- ===== src/Invariants/Reads.antt =====
-- The queries of internal/infra/postgres leave the database alone, and a refused insertion does too.
use wager_service.Base.{arith, ◌≡◌, refl, String}
use wager_service.Ids.{Uuid}
use wager_service.Wager.{Transaction, Kind}
use wager_service.Postgres.Database.{World}
use wager_service.Postgres.Wallets
use wager_service.Postgres.Transactions
use wager_service.Postgres.Inbox
use wager_service.Invariants.Triple.{FailsClean, Reads}

pub find_wallet-Reads : (id : Uuid) → Reads (Wallets.find_by_id id)
unfolding Wallets.find_by_id
find_wallet-Reads id = record { same = λ w. refl }

pub find_external-Reads : (p e : String) → Reads (Transactions.find_by_provider_and_external_id p e)
unfolding Transactions.find_by_provider_and_external_id
find_external-Reads p e = record { same = λ w. refl }

pub find_key-Reads : (p k : String) → Reads (Transactions.find_by_idempotency_key p k)
unfolding Transactions.find_by_idempotency_key
find_key-Reads p k = record { same = λ w. refl }

pub count-Reads : (id : Uuid) (k : Kind) → Reads (Transactions.count_successful_reversals id k)
unfolding Transactions.count_successful_reversals
count-Reads id k = record { same = λ w. refl }

pub find_record-Reads : (c m : String) → Reads (Inbox.find_record c m)
unfolding Inbox.find_record
find_record-Reads c m = record { same = λ w. refl }

pub find_wallet-looks :
    (id : Uuid) (w : World) → Wallets.find_by_id id w ≡ (Wallets.lookup id w.db, w)
unfolding Wallets.find_by_id
find_wallet-looks id w = refl

pub create-FailsClean : (tx : Transaction) → FailsClean (Transactions.create tx)
unfolding Transactions.create
create-FailsClean tx = record { clean = λ w. ground arith }
