-- ===== src/Tests/History.antt =====
-- A short history of requests to the service (internal/application).
use wager_service.Base.{arith, ◌≡◌, List, [], ◌∷◌, All}
use wager_service.Base.Int.{pos}
use wager_service.Postgres.{postgres}
use wager_service.Postgres.Wallets
use wager_service.Reconcile
use wager_service.Resolve.{run_once}
use wager_service.Service.{
  Request, InRange, open_wallet, submit, resolve_pending, reconcile, serve, empty,
}
use wager_service.Service.Books.{serve-Balanced}
use wager_service.Service.Pending.{run_once-serve}
use wager_service.Service.Reversals.{serve-AtMostOnce}
use wager_service.Service.Reversals.Counted.{AtMostOnce}
use wager_service.Service.Ledger.{serve-Extends}
use wager_service.Service.Reconciliation.{answered, reconcile_exact}
use wager_service.Invariants.Balance.{Balanced, entries}
use wager_service.Bank.{Run}
use wager_service.Bank.Refinement.{bank, serve-Run}
use wager_service.Invariants.Schedule.{limit_error}
use wager_service.Invariants.History.{Extends}
use wager_service.Tests.{brl, brl-Fits, bet_command, refund_command, config}

abbrev pub requests : List Request
requests =
    open_wallet (record { player_id = 7; initial_balance = brl 10000; correlation_id = 9; now = 1 })
    ∷ submit bet_command
    ∷ submit refund_command
    ∷ resolve_pending 1000 (pos 10)
    ∷ []

abbrev more_requests : List Request
more_requests =
    submit (record bet_command { external_transaction_id = "bet-3"; idempotency_key = "k3" })
    ∷ reconcile 100
    ∷ []

pub requests-InRange : All InRange requests
requests-InRange = (
  brl-Fits 10000 (omega arith),
  (brl-Fits 2500 (omega arith), (brl-Fits 2500 (omega arith), (tt, tt))),
)

more_requests-InRange : All InRange more_requests
more_requests-InRange = (brl-Fits 2500 (omega arith), (tt, tt))

serve-Balanced_example : Balanced (serve config requests empty).db
serve-Balanced_example = serve-Balanced config requests requests-InRange

serve-AtMostOnce_example : AtMostOnce (serve config requests empty).db.transactions
serve-AtMostOnce_example = serve-AtMostOnce config requests requests-InRange

serve-Run_example : Run requests (bank empty) (bank (serve config requests empty))
serve-Run_example = serve-Run config requests requests-InRange

serve-Extends_example :
    Extends
      (serve config requests empty).db.ledger
      (serve config more_requests (serve config requests empty)).db
serve-Extends_example =
    serve-Extends config requests more_requests requests-InRange more_requests-InRange

run_once-serve_example :
    run_once (postgres config.v7) config.policy 1000 (pos 10) (serve config requests empty)
    ≡ ((0, 0), limit_error (pos 10), serve config requests empty)
run_once-serve_example = run_once-serve config requests 1000 (pos 10) requests-InRange

reconcile_exact_example :
    Reconcile.execute (postgres config.v7) 100 (serve config requests empty) ≡ (
      answered 100
          (Wallets.lookup 100 (serve config requests empty).db)
          (entries 100 (serve config requests empty).db),
      serve config requests empty,
    )
reconcile_exact_example =
    reconcile_exact config.v7 100 (serve config requests empty)
      (serve-Balanced config requests requests-InRange)
