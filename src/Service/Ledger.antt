-- ===== src/Service/Ledger.antt =====
-- The ledger in the life of the service (internal/application on internal/infra/postgres).
use mathlib.Core.List.{append-nil}
use wager_service.Base.{sym, List, [], All}
use wager_service.Service.{Request, InRange, Config, serve, empty}
use wager_service.Service.Keeps.{serve-keeps, history-Unscheduled}
use wager_service.Invariants.History.{Extends, Extends-Stable, Extends-Openable}

-- The ledger is append-only: after one history of requests from empty tables, any further requests leave
-- the entries that are there as they are and where they are, and add entries behind them; all amounts
-- are `int64` values.
pub serve-Extends :
    (c : Config) (rs more : List Request)
    → All InRange rs
    → All InRange more
    → Extends (serve c rs empty).db.ledger (serve c more (serve c rs empty)).db
serve-Extends c rs more fits fits' =
    let old = (serve c rs empty).db.ledger in
    serve-keeps (Extends-Stable old) (Extends-Openable old) c more (serve c rs empty) fits'
      (history-Unscheduled c rs fits) ([], sym (append-nil old))
