-- ===== src/Service/Keeps.antt =====
-- What every use case of internal/application keeps, every history of requests keeps.
use wager_service.Base.{arith, ℕ, ◌≡◌, List, [], ◌∷◌, All}
use wager_service.Ids.{Uuid}
use wager_service.Wallet.{Wallet}
use wager_service.Ports.{◌>>=◌}
use wager_service.Postgres.{postgres}
use wager_service.Postgres.Database.{Db, World}
use wager_service.Postgres.Wallets
use wager_service.Postgres.Ledgers
use wager_service.Reconcile
use wager_service.Service.{
  Request, open_wallet, submit, resolve_pending, reconcile, InRange, Config, handle, serve, empty,
}
use wager_service.Invariants.Stable.{Stable}
use wager_service.Invariants.Submit.{execute-keeps}
use wager_service.Invariants.Open.{Openable, open-keeps}
use wager_service.Invariants.Schedule.{
  Unscheduled, Unscheduled-Stable, Unscheduled-Openable, run_once-idle,
}

-- Reconciliation only reads.
pub reconcile-same :
    (v7 : ℕ → Uuid) (id : Uuid) (w : World) → (Reconcile.execute (postgres v7) id w).1 ≡ w
unfolding Reconcile.execute Reconcile.execute_body Wallets.find_by_id Ledgers.sum_by_wallet ◌>>=◌
reconcile-same v7 id w = ground arith

module _ {I : Db → Type 0} {O : Wallet → Db → Type 0} (stable : Stable I) (openable : Openable I O)
    (c : Config) where
  pub handle-keeps :
      (r : Request) (w : World) → InRange r → Unscheduled w.db → I w.db → I (handle c r w).db
  unfolding handle
  handle-keeps (open_wallet cmd) w fits u h =
      open-keeps c.v7 stable.records.outbox_append openable cmd w fits h
  handle-keeps (submit cmd) w fits u h = execute-keeps c.v7 stable c.canonical_hash cmd w fits h
  handle-keeps (resolve_pending now n) w fits u h =
      rw (run_once-idle c.v7 c.policy now n w u, handle) h
  handle-keeps (reconcile id) w fits u h = rw (reconcile-same c.v7 id w, handle) h

pub handle-Unscheduled :
    (c : Config) (r : Request) (w : World)
    → InRange r
    → Unscheduled w.db
    → Unscheduled (handle c r w).db
handle-Unscheduled c r w fits u =
    handle-keeps Unscheduled-Stable Unscheduled-Openable c r w fits u u

serve-Unscheduled :
    (c : Config) (rs : List Request) (w : World)
    → All InRange rs
    → Unscheduled w.db
    → Unscheduled (serve c rs w).db
unfolding serve
serve-Unscheduled c [] w fits u = u
serve-Unscheduled c (r ∷ rs) w fits u =
    serve-Unscheduled c rs (handle c r w) fits.1 (handle-Unscheduled c r w fits.0 u)

pub serve-keeps :
    {I : Db → Type 0} {O : Wallet → Db → Type 0} (stable : Stable I) (openable : Openable I O)
    (c : Config) (rs : List Request) (w : World)
    → All InRange rs
    → Unscheduled w.db
    → I w.db
    → I (serve c rs w).db
unfolding serve
serve-keeps stable openable c [] w fits u h = h
serve-keeps stable openable c (r ∷ rs) w fits u h =
    serve-keeps stable openable c rs (handle c r w) fits.1 (handle-Unscheduled c r w fits.0 u)
      (handle-keeps stable openable c r w fits.0 u h)

-- In the tables that the service has filled since they were empty no retry is scheduled.
pub history-Unscheduled :
    (c : Config) (rs : List Request) → All InRange rs → Unscheduled (serve c rs empty).db
history-Unscheduled c rs fits = serve-Unscheduled c rs empty fits tt
