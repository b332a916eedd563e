-- ===== src/Bank/Refinement.antt =====
-- The service (internal/application on internal/infra/postgres) against the abstract bank.
use wager_service.Base.{refl, List, [], ◌∷◌, All}
use wager_service.Postgres.Database.{World}
use wager_service.Service.{
  Request, open_wallet, submit, resolve_pending, reconcile, InRange, Config, handle, serve, empty,
}
use wager_service.Service.Keeps.{handle-keeps, handle-Unscheduled, reconcile-same}
use wager_service.Invariants.Schedule.{Unscheduled, run_once-idle}
use wager_service.Invariants.Balance.{Balanced}
use wager_service.Invariants.Books.{Balanced-Stable}
use wager_service.Invariants.Opening.{Balanced-Openable}
use wager_service.Service.Books.{empty-Balanced}
use wager_service.Bank.{Bank, Step, Run}
use wager_service.Bank.Tables.{bank_of}
use wager_service.Bank.Openings.{open-Step}
use wager_service.Bank.Payments.{submit-Step}

-- the abstract bank of what is committed
abbrev pub bank : World → Bank
bank w = bank_of w.db.wallets

module _ (c : Config) where
  handle-Step :
      (r : Request) (w : World)
      → InRange r
      → Unscheduled w.db
      → Balanced w.db
      → Step r (bank w) (bank (handle c r w))
  unfolding handle
  handle-Step (open_wallet cmd) w fits u b = open-Step c.v7 cmd w fits
  handle-Step (submit cmd) w fits u b = submit-Step c.v7 c.canonical_hash cmd w fits b
  handle-Step (resolve_pending now n) w fits u b =
      rw (run_once-idle c.v7 c.policy now n w u, handle) (λ id. refl)
  handle-Step (reconcile id) w fits u b = rw (reconcile-same c.v7 id w, handle) (λ id'. refl)

  served-Run :
      (rs : List Request) (w : World)
      → All InRange rs
      → Unscheduled w.db
      → Balanced w.db
      → Run rs (bank w) (bank (serve c rs w))
  unfolding serve
  served-Run [] w fits u b = λ id. refl
  served-Run (r ∷ rs) w fits u b = (
    bank (handle c r w),
    (
      handle-Step r w fits.0 u b,
      served-Run rs (handle c r w) fits.1 (handle-Unscheduled c r w fits.0 u)
          (handle-keeps Balanced-Stable Balanced-Openable c r w fits.0 u b),
    ),
  )

-- The service refines the abstract bank: from empty tables, any history of requests with `int64` amounts
-- is a run of the bank, in which each request changes no balance, or a wallet that was not there has the
-- initial balance, or the named wallet alone pays or receives exactly the command's amount, in its
-- currency and without going below zero. A bet pays, a win and a refund receive; the resolver and the
-- reconciliation change no balance.
pub serve-Run :
    (c : Config) (rs : List Request)
    → All InRange rs
    → Run rs (bank empty) (bank (serve c rs empty))
serve-Run c rs fits = served-Run c rs empty fits tt empty-Balanced
