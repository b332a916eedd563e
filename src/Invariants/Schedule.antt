-- ===== src/Invariants/Schedule.antt =====
-- The retry schedule of parked transactions: internal/infra/postgres/wager_transaction_repository.go writes
-- the column `pending_reference_next_retry_at` only in `RecordPendingReferenceAttempt`, and
-- `ListPendingReferenceDue` reads only rows where it is set.
use wager_service.Base.{
  arith, ℕ, ◌≡◌, refl, String, Option, none, some, List, [], ◌∷◌, All, All-append, All-update, keep,
  sort_by,
}
use wager_service.Base.Int.{ℤ, pos, negsuc}
use wager_service.Ids.{Uuid, Time}
use wager_service.Errors.{Error, database}
use wager_service.Ports.{OutboxRecord, InboxRecord, ◌>>=◌, ◌>>◌}
use wager_service.Wager.{Transaction}
use wager_service.Wallet.{Wallet}
use wager_service.Ledger.{Entry}
use wager_service.Postgres.{postgres}
use wager_service.Postgres.Database.{Db, World, TxRow}
use wager_service.Postgres.Wallets
use wager_service.Postgres.Transactions
use wager_service.Postgres.Ledgers
use wager_service.Postgres.Inbox
use wager_service.Postgres.Outbox
use wager_service.Resolve.{PendingReferenceRetryPolicy, run_once, run_due}
use wager_service.Invariants.Triple.{Leads}
use wager_service.Invariants.Stable.{Stable, Leads-Found}
use wager_service.Invariants.Open.{Openable}
use wager_service.Invariants.Due.{nothing_due, limited-nil}

abbrev HasNoRetry : TxRow → Type 0
HasNoRetry r = r.pending_reference_next_retry_at ≡ none

-- No row of `wager_transactions` has a time for its next retry.
abbrev pub Unscheduled : Db → Type 0
Unscheduled db = All HasNoRetry db.transactions

create-keeps : (tx : Transaction) → Leads Unscheduled (Transactions.create tx) Unscheduled
unfolding Transactions.create
create-keeps tx = record {
  at = λ w h.
      ground (arith, All-append HasNoRetry w.db.transactions (Transactions.row_of tx) h refl);
}

save-keeps : (tx : Transaction) → Leads Unscheduled (Transactions.save tx) Unscheduled
unfolding Transactions.save
save-keeps tx = record {
  at = λ w h. ground (
    arith,
    All-update HasNoRetry (Transactions.has_id tx.id) (Transactions.overwrite tx) w.db.transactions
        (λ r k. k) h,
  );
}

move-keeps :
    (entry : Entry) (w₀ w : Wallet)
    → Leads Unscheduled (Ledgers.append entry >> Wallets.save w w₀.version) Unscheduled
unfolding Ledgers.append Wallets.save ◌>>=◌
move-keeps entry w₀ w = record { at = λ world h. ground arith }

outbox-keeps : (rec : OutboxRecord) → Leads Unscheduled (Outbox.append rec) Unscheduled
unfolding Outbox.append
outbox-keeps rec = record { at = λ w h. ground arith }

inbox_insert-keeps : (rec : InboxRecord) → Leads Unscheduled (Inbox.insert rec) Unscheduled
unfolding Inbox.insert
inbox_insert-keeps rec = record { at = λ w h. ground arith }

inbox_complete-keeps :
    (c m : String) (at : Time) → Leads Unscheduled (Inbox.mark_completed c m at) Unscheduled
unfolding Inbox.mark_completed
inbox_complete-keeps c m at = record { at = λ w h. h }

pub Unscheduled-Stable : Stable Unscheduled
Unscheduled-Stable = record {
  records = record {
    tx_create = create-keeps;
    tx_save = save-keeps;
    outbox_append = outbox-keeps;
    inbox_insert = inbox_insert-keeps;
    inbox_complete = inbox_complete-keeps;
  };
  move = λ id w₀ w entry moves. Leads-Found id w₀ (move-keeps entry w₀ w);
}

wallet_create-keeps : (wallet : Wallet) → Leads Unscheduled (Wallets.create wallet) Unscheduled
unfolding Wallets.create
wallet_create-keeps wallet = record { at = λ w h. ground arith }

entry-keeps : (entry : Entry) → Leads Unscheduled (Ledgers.append entry) Unscheduled
unfolding Ledgers.append
entry-keeps entry = record { at = λ w h. ground arith }

pub Unscheduled-Openable : Openable Unscheduled (λ w. Unscheduled)
Unscheduled-Openable balance = record {
  create = λ id player at w fits e. wallet_create-keeps w;
  tx_create = λ w tx k. create-keeps tx;
  no_entry = λ w e db h. h;
  entry = λ w e opens. entry-keeps e;
}

-- Where no row is scheduled, no row is due.
keep-due :
    (now : Time) (rows : List TxRow)
    → All HasNoRetry rows
    → keep (Transactions.is_due now) rows ≡ []
unfolding keep
keep-due now [] h = refl
keep-due now (r ∷ rows) h = ground (arith, keep-due now rows h.1)

-- What a query says of its limit: a negative one is an error.
abbrev pub limit_error : ℤ → Option Error
limit_error (pos n) = none
limit_error (negsuc n) = some database

list-due :
    (now : Time) (n : ℤ) (w : World)
    → Unscheduled w.db
    → Transactions.list_pending_reference_due now n w ≡ (nothing_due n, w)
unfolding Transactions.list_pending_reference_due sort_by
list-due now n w h = rw (keep-due now w.db.transactions h, limited-nil n) refl

pub run_once-idle :
    (v7 : ℕ → Uuid) (policy : PendingReferenceRetryPolicy) (now : Time) (n : ℤ) (w : World)
    → Unscheduled w.db
    → run_once (postgres v7) policy now n w ≡ ((0, 0), limit_error n, w)
unfolding run_once run_due
run_once-idle v7 policy now (pos n) w h = ground (arith, list-due now (pos n) w h)
run_once-idle v7 policy now (negsuc n) w h = ground (arith, list-due now (negsuc n) w h)
