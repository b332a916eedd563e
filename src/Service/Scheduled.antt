-- ===== src/Service/Scheduled.antt =====
-- The resolver of parked reversals on rows whose retries are scheduled
-- (internal/application/resolve_pending_references.go on internal/infra/postgres).
use wager_service.Base.{ℕ, All}
use wager_service.Base.Int.{ℤ}
use wager_service.Ids.{Uuid, Time}
use wager_service.Postgres.{postgres}
use wager_service.Postgres.Database.{World}
use wager_service.Postgres.Transactions
use wager_service.Resolve.{PendingReferenceRetryPolicy, run_once}
use wager_service.Invariants.Triple.{Leads}
use wager_service.Invariants.Balance.{Balanced}
use wager_service.Invariants.Books.{Balanced-Stable}
use wager_service.Invariants.Due.{HasInt64}
use wager_service.Invariants.Attempts.{run_once-keeps}

reschedule-Balanced :
    (id : Uuid) (n : ℕ) (at : Time)
    → Leads Balanced (Transactions.record_pending_reference_attempt id n at) Balanced
unfolding Transactions.record_pending_reference_attempt
reschedule-Balanced id n at = record { at = λ w b. record { at = λ i. b.at i } }

-- One pass of the resolver over any database whose books are in order and whose transactions have `int64`
-- amounts, whatever retries are scheduled there: the books are in order after it, whether it has settled,
-- rejected, expired or rescheduled the transactions that were due, or stopped at an error.
pub run_once-Balanced :
    (v7 : ℕ → Uuid) (policy : PendingReferenceRetryPolicy) (now : Time) (n : ℤ) (w : World)
    → All HasInt64 w.db.transactions
    → Balanced w.db
    → Balanced (run_once (postgres v7) policy now n w).2.db
run_once-Balanced v7 policy now n w fits b =
    run_once-keeps v7 policy Balanced-Stable reschedule-Balanced now n w fits b
