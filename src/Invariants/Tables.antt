-- ===== src/Invariants/Tables.antt =====
-- What speaks of the tables of wallets and ledger entries alone is kept by writes to the other tables
-- (internal/infra/postgres).
use wager_service.Base.{arith, String, List}
use wager_service.Ids.{Time}
use wager_service.Wallet.{Wallet}
use wager_service.Wager.{Transaction}
use wager_service.Ports.{InboxRecord, OutboxRecord}
use wager_service.Postgres.Database.{Db, LedgerRow}
use wager_service.Postgres.Transactions
use wager_service.Postgres.Inbox
use wager_service.Postgres.Outbox
use wager_service.Invariants.Triple.{Leads}
use wager_service.Invariants.Stable.{Records}

module _ (T : List Wallet → List LedgerRow → Type 0) where
  abbrev pub OnTables : Db → Type 0
  OnTables db = T db.wallets db.ledger

  create-keeps : (tx : Transaction) → Leads OnTables (Transactions.create tx) OnTables
  unfolding Transactions.create
  create-keeps tx = record { at = λ w h. ground (arith, h) }

  save-keeps : (tx : Transaction) → Leads OnTables (Transactions.save tx) OnTables
  unfolding Transactions.save
  save-keeps tx = record { at = λ w h. ground (arith, h) }

  outbox-keeps : (rec : OutboxRecord) → Leads OnTables (Outbox.append rec) OnTables
  unfolding Outbox.append
  outbox-keeps rec = record { at = λ w h. ground (arith, h) }

  inbox_insert-keeps : (rec : InboxRecord) → Leads OnTables (Inbox.insert rec) OnTables
  unfolding Inbox.insert
  inbox_insert-keeps rec = record { at = λ w h. ground (arith, h) }

  inbox_complete-keeps :
      (c m : String) (at : Time) → Leads OnTables (Inbox.mark_completed c m at) OnTables
  unfolding Inbox.mark_completed
  inbox_complete-keeps c m at = record { at = λ w h. h }

  pub OnTables-Records : Records OnTables
  OnTables-Records = record {
    tx_create = create-keeps;
    tx_save = save-keeps;
    outbox_append = outbox-keeps;
    inbox_insert = inbox_insert-keeps;
    inbox_complete = inbox_complete-keeps;
  }
