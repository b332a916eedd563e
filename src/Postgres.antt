-- ===== src/Postgres.antt =====
-- internal/infra/postgres and the tables of migrations/: the repositories over a database state. A query
-- is the list operation that its SQL text denotes; a violated UNIQUE or PRIMARY KEY constraint is
-- `ErrConflict`, a violated CHECK or FOREIGN KEY an error with no sentinel. Each call runs in one
-- transaction at a time, and the connection does not fail.
pub mod Database
pub mod Wallets
pub mod Transactions
pub mod Ledgers
pub mod Inbox
pub mod Outbox
pub mod RoundTrip
pub mod Pages
use Database.{World}
use wager_service.Base.{ℕ, ◌+◌}
use wager_service.Ids.{Uuid}
use wager_service.Errors.{Result, ok, err}
use wager_service.Ports.{M, Ports}

-- What `Commit` or `Rollback` leaves. Identifiers that were drawn stay drawn.
abbrev pub settle : {A : Type 0} → World → Result A → World → Result A × World
settle before (ok a) after = (ok a, after)
settle before (err e) after = (err e, record after { db = before.db })

-- `TxManager.WithinTx`
abbrev pub within_tx : {A : Type 0} → M World A → M World A
within_tx fn w = let (r, w') = fn w in settle w r w'

-- `uuid.NewV7`; `v7 n` is the n-th value that it returns in the life of the service.
abbrev pub new_v7 : (ℕ → Uuid) → M World Uuid
new_v7 v7 w = (ok (v7 w.drawn), record w { drawn = w.drawn + 1 })

-- The service's wiring of the use cases (internal/infra/fxmodules/postgres.go).
abbrev pub postgres : (ℕ → Uuid) → Ports World
postgres v7 = record {
  within_tx = within_tx;
  new_v7 = new_v7 v7;
  wallets = Wallets.repository;
  txs = Transactions.repository;
  ledgers = Ledgers.repository;
  inbox = Inbox.repository;
  outbox = Outbox.repository;
}
