-- ===== src/Service.antt =====
-- The service as a history of requests: each is one use case on the database that the ones before it left
-- (internal/application, wired as in internal/infra/fxmodules/application.go).
pub mod Keeps
pub mod Books
pub mod Ledger
pub mod Reconciliation
pub mod Pending
pub mod Reversals
pub mod Scheduled
use wager_service.Base.{ℕ, String, List, [], ◌∷◌}
use wager_service.Base.Int.{ℤ}
use wager_service.Ids.{Uuid, Time}
use wager_service.Errors.{Result}
use wager_service.Money.Arithmetic.{Fits}
use wager_service.Postgres.{postgres}
use wager_service.Postgres.Database.{Db, World}
use wager_service.Process
use wager_service.Process.Request.{Command, CanonicalPayload}
use wager_service.OpenWallet
use wager_service.OpenWallet.{OpenWalletCommand}
use wager_service.Reconcile
use wager_service.Resolve
use wager_service.Resolve.{PendingReferenceRetryPolicy}

-- What a client or a worker asks for.
pub data Request : Type 0 where
  open_wallet : OpenWalletCommand → Request
  submit : Command → Request
  resolve_pending : Time → ℤ → Request
  reconcile : Uuid → Request

-- The amounts of a request are `int64` values.
abbrev pub InRange : Request → Type 0
InRange (open_wallet cmd) = Fits cmd.initial_balance
InRange (submit cmd) = Fits cmd.amount
InRange _ = Unit

-- A database with no rows, and a generator that has drawn nothing.
abbrev pub empty : World
empty = record {
  db = record { wallets = []; transactions = []; ledger = []; inbox = []; outbox = [] };
  drawn = 0;
}

-- What the service is configured with: `uuid.NewV7`, `CanonicalHash` and the retry policy.
pub record Config : Type 0 where
  pub v7 : ℕ → Uuid
  pub canonical_hash : CanonicalPayload → Result String
  pub policy : PendingReferenceRetryPolicy

-- The database that a request leaves; its answer is dropped.
unfoldable pub handle : Config → Request → World → World
handle c (open_wallet cmd) w = (OpenWallet.execute (postgres c.v7) cmd w).1
handle c (submit cmd) w = (Process.execute (postgres c.v7) c.canonical_hash cmd w).1
handle c (resolve_pending now n) w = (Resolve.run_once (postgres c.v7) c.policy now n w).2
handle c (reconcile id) w = (Reconcile.execute (postgres c.v7) id w).1

unfoldable pub serve : Config → List Request → World → World
serve c [] w = w
serve c (r ∷ rs) w = serve c rs (handle c r w)
