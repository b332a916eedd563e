-- ===== src/Service/Pending.antt =====
-- Parked reversals (internal/application/resolve_pending_references.go) in the life of the service.
use wager_service.Base.{◌≡◌, List, All}
use wager_service.Base.Int.{ℤ}
use wager_service.Ids.{Time}
use wager_service.Postgres.{postgres}
use wager_service.Resolve.{run_once}
use wager_service.Service.{Request, InRange, Config, serve, empty}
use wager_service.Service.Keeps.{history-Unscheduled}
use wager_service.Invariants.Schedule.{limit_error, run_once-idle}

-- After any history of requests with `int64` amounts, starting with empty tables, a run of the resolver
-- at any time settles no transaction, reschedules none and changes nothing, so that a parked reversal stays
-- parked; it meets no error, unless its limit is negative, which PostgreSQL refuses.
pub run_once-serve :
    (c : Config) (rs : List Request) (now : Time) (limit : ℤ)
    → All InRange rs
    → run_once (postgres c.v7) c.policy now limit (serve c rs empty)
      ≡ ((0, 0), limit_error limit, serve c rs empty)
run_once-serve c rs now limit fits =
    run_once-idle c.v7 c.policy now limit (serve c rs empty) (history-Unscheduled c rs fits)
