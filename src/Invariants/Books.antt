-- ===== src/Invariants/Books.antt =====
-- The writes of the use cases keep the books (internal/infra/postgres/wallet_repository.go and
-- ledger_repository.go).
use mathlib.Core.List.{append-nil}
use wager_service.Base.{
  arith, ◌≡◌, refl, Bool, true, false, String, none, some, [], ◌∷◌, ◌++◌, update, keep-append,
  find-update, find-test, if◌then◌else◌,
}
use wager_service.Ids.{Uuid, Time}
use wager_service.Wallet.{Wallet}
use wager_service.Wager.{Transaction}
use wager_service.Ledger.{Entry}
use wager_service.Ports.{OutboxRecord, InboxRecord, ◌>>=◌, ◌>>◌}
use wager_service.Postgres.Database.{Db}
use wager_service.Postgres.Wallets
use wager_service.Postgres.Transactions
use wager_service.Postgres.Ledgers
use wager_service.Postgres.Inbox
use wager_service.Postgres.Outbox
use wager_service.Invariants.Triple.{Leads}
use wager_service.Invariants.Stable.{Stable, Moves, Found}
use wager_service.Invariants.Posting.{Posts, Moves-Posts}
use wager_service.Invariants.Balance.{
  Balanced, Accounted, Agrees, entries, wallet_row, found-row, moved_row, moved_own, moved_other,
}

-- Writes to the other tables.
same_books :
    (db db' : Db) → db'.wallets ≡ db.wallets → db'.ledger ≡ db.ledger → Balanced db → Balanced db'
same_books db db' e e' b = record { at = λ id. rw (e, e') (b.at id) }

create-keeps : (tx : Transaction) → Leads Balanced (Transactions.create tx) Balanced
unfolding Transactions.create
create-keeps tx = record { at = λ w b. ground (arith, same_books w.db _ refl refl b) }

save-keeps : (tx : Transaction) → Leads Balanced (Transactions.save tx) Balanced
unfolding Transactions.save
save-keeps tx = record { at = λ w b. ground (arith, same_books w.db) }

outbox-keeps : (rec : OutboxRecord) → Leads Balanced (Outbox.append rec) Balanced
unfolding Outbox.append
outbox-keeps rec = record { at = λ w b. ground (arith, same_books w.db) }

inbox_insert-keeps : (rec : InboxRecord) → Leads Balanced (Inbox.insert rec) Balanced
unfolding Inbox.insert
inbox_insert-keeps rec = record { at = λ w b. ground (arith, same_books w.db) }

inbox_complete-keeps :
    (c m : String) (at : Time) → Leads Balanced (Inbox.mark_completed c m at) Balanced
unfolding Inbox.mark_completed
inbox_complete-keeps c m at = record { at = λ w b. same_books w.db _ refl refl b }

module _ (w₀ w : Wallet) (entry : Entry) (posts : Posts w₀ w (Ledgers.row_of entry)) where
  -- the database after both writes of a movement
  abbrev moved_db : Db → Db
  moved_db db = record db {
    wallets = update (Wallets.is_version w.id w₀.version) (Wallets.overwrite w) db.wallets;
    ledger = db.ledger ++ Ledgers.row_of entry ∷ [];
  }

  moved_by :
      (db : Db) (id : Uuid) (same : Bool)
      → Ledgers.of_wallet id (Ledgers.row_of entry) ≡ same
      → wallet_row w₀.id db ≡ some w₀
      → Balanced db
      → Accounted
          (elim (wallet_row id db) [
            | some y ↦ some (moved_row w₀ w (Ledgers.row_of entry) posts y)
            | none ↦ none
          ])
          (entries id db ++ (if same then Ledgers.row_of entry ∷ [] else []))
  moved_by db id true e found b =
      moved_own w₀ w (Ledgers.row_of entry) posts (wallet_row id db) (entries id db)
        (ground (arith, posts.same_wallet)) (b.at id)
  moved_by db id false e found b = rw (append-nil (entries id db)) (
      moved_other w₀ w (Ledgers.row_of entry) posts id (wallet_row id db) (entries id db)
        (λ row k. ground (arith, find-test (Wallets.has_id id) db.wallets row k)) e (b.at id))

  moved_at :
      (db : Db) (id : Uuid)
      → (wallet_row w₀.id db ≡ some w₀)
      → Balanced db
      → Accounted (wallet_row id (moved_db db)) (entries id (moved_db db))
  moved_at db id found b =
      rw
        (find-update (Wallets.has_id id) (Wallets.is_version w.id w₀.version) (Wallets.overwrite w)
          (λ x. refl) db.wallets)
        (rw (keep-append (Ledgers.of_wallet id) db.ledger (Ledgers.row_of entry))
          (moved_by db id (Ledgers.of_wallet id (Ledgers.row_of entry)) refl found b))

  moved-Balanced : (db : Db) → wallet_row w₀.id db ≡ some w₀ → Balanced db → Balanced (moved_db db)
  moved-Balanced db found b = record { at = λ id. moved_at db id found b }

  move_posts :
      (id : Uuid)
      → Leads (Found Balanced id w₀) (Ledgers.append entry >> Wallets.save w w₀.version) Balanced
  unfolding Ledgers.append Wallets.save ◌>>=◌
  move_posts id = record {
    at = λ world h. ground (arith, moved-Balanced world.db, found-row id world.db w₀);
  }

-- What the books say of a row that is found.
pub row-Agrees :
    (id : Uuid) (db : Db) (w : Wallet)
    → wallet_row id db ≡ some w
    → Balanced db
    → Agrees w (entries id db)
row-Agrees id db w e b = ground (arith, b.at id)

pub Found-Agrees :
    (id : Uuid) (db : Db) (w : Wallet) → Found Balanced id w db → Agrees w (entries id db)
Found-Agrees id db w (b, e) = row-Agrees id db w (found-row id db w e).0 b

move-Leads :
    (id : Uuid) (w₀ w : Wallet) (entry : Entry)
    → Moves w₀ w entry
    → Leads (Found Balanced id w₀) (Ledgers.append entry >> Wallets.save w w₀.version) Balanced
move-Leads id w₀ w entry moves = record {
  at = λ world h.
      let agrees = Found-Agrees id world.db w₀ h in
      (move_posts w₀ w entry (Moves-Posts w₀ w entry agrees.fits agrees.solvent moves) id).at world
        h;
}

pub Balanced-Stable : Stable Balanced
Balanced-Stable = record {
  records = record {
    tx_create = create-keeps;
    tx_save = save-keeps;
    outbox_append = outbox-keeps;
    inbox_insert = inbox_insert-keeps;
    inbox_complete = inbox_complete-keeps;
  };
  move = move-Leads;
}
