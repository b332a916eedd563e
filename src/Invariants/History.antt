-- ===== src/Invariants/History.antt =====
-- The ledger and the entries that it had before (internal/infra/postgres/ledger_repository.go).
use mathlib.Core.List.{append_assoc}
use wager_service.Base.{arith, ◌≡◌, String, List, [], ◌∷◌, ◌++◌}
use wager_service.Base.Int.{ℤ}
use wager_service.Ids.{Time}
use wager_service.Wallet.{Wallet}
use wager_service.Wager.{Transaction}
use wager_service.Ledger.{Entry}
use wager_service.Ports.{InboxRecord, OutboxRecord, ◌>>◌}
use wager_service.Postgres.Database.{Db, LedgerRow}
use wager_service.Postgres.Wallets
use wager_service.Postgres.Transactions
use wager_service.Postgres.Ledgers
use wager_service.Postgres.Inbox
use wager_service.Postgres.Outbox
use wager_service.Invariants.Triple.{Leads, Leads-bind}
use wager_service.Invariants.Stable.{Stable, Leads-Found}
use wager_service.Invariants.Open.{Openable}

module _ (old : List LedgerRow) where
  -- The ledger has the rows `old`, in their order, before all others.
  abbrev pub Extends : Db → Type 0
  Extends db = (more : List LedgerRow) × (db.ledger ≡ old ++ more)

  longer :
      (ledger : List LedgerRow) (r : LedgerRow)
      → (more : List LedgerRow) × (ledger ≡ old ++ more)
      → (more : List LedgerRow) × (ledger ++ r ∷ [] ≡ old ++ more)
  longer ledger r (more, e) = (more ++ r ∷ [], rw e (append_assoc old more (r ∷ [])))

  create-keeps : (tx : Transaction) → Leads Extends (Transactions.create tx) Extends
  unfolding Transactions.create
  create-keeps tx = record { at = λ w h. ground arith }

  save-keeps : (tx : Transaction) → Leads Extends (Transactions.save tx) Extends
  unfolding Transactions.save
  save-keeps tx = record { at = λ w h. ground arith }

  outbox-keeps : (rec : OutboxRecord) → Leads Extends (Outbox.append rec) Extends
  unfolding Outbox.append
  outbox-keeps rec = record { at = λ w h. ground arith }

  inbox_insert-keeps : (rec : InboxRecord) → Leads Extends (Inbox.insert rec) Extends
  unfolding Inbox.insert
  inbox_insert-keeps rec = record { at = λ w h. ground arith }

  inbox_complete-keeps :
      (c m : String) (at : Time) → Leads Extends (Inbox.mark_completed c m at) Extends
  unfolding Inbox.mark_completed
  inbox_complete-keeps c m at = record { at = λ w h. h }

  wallet_create-keeps : (wallet : Wallet) → Leads Extends (Wallets.create wallet) Extends
  unfolding Wallets.create
  wallet_create-keeps wallet = record { at = λ w h. ground arith }

  entry-keeps : (entry : Entry) → Leads Extends (Ledgers.append entry) Extends
  unfolding Ledgers.append
  entry-keeps entry = record {
    at = λ w h. ground (arith, longer w.db.ledger (Ledgers.row_of entry) h);
  }

  wallet_save-keeps : (w : Wallet) (expected : ℤ) → Leads Extends (Wallets.save w expected) Extends
  unfolding Wallets.save
  wallet_save-keeps w expected = record { at = λ world h. ground arith }

  move-keeps :
      (entry : Entry) (w₀ w : Wallet)
      → Leads Extends (Ledgers.append entry >> Wallets.save w w₀.version) Extends
  move-keeps entry w₀ w = Leads-bind _ _ (entry-keeps entry) (λ _. wallet_save-keeps w w₀.version)

  pub Extends-Stable : Stable Extends
  Extends-Stable = record {
    records = record {
      tx_create = create-keeps;
      tx_save = save-keeps;
      outbox_append = outbox-keeps;
      inbox_insert = inbox_insert-keeps;
      inbox_complete = inbox_complete-keeps;
    };
    move = λ id w₀ w entry moves. Leads-Found id w₀ (move-keeps entry w₀ w);
  }

  pub Extends-Openable : Openable Extends (λ w. Extends)
  Extends-Openable balance = record {
    create = λ id player at w fits e. wallet_create-keeps w;
    tx_create = λ w tx k. create-keeps tx;
    no_entry = λ w e db h. h;
    entry = λ w e opens. entry-keeps e;
  }
