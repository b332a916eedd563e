-- ===== src/Tests/Retries.antt =====
-- A refund whose retry is due, beside the bet that it refers to
-- (internal/application/resolve_pending_references.go).
use wager_service.Base.{arith, some, [], ◌∷◌, All}
use wager_service.Base.Int.{pos}
use wager_service.Wager.{refund, pending_reference}
use wager_service.Postgres.{postgres}
use wager_service.Postgres.Database.{World, TxRow}
use wager_service.Postgres.Transactions
use wager_service.Resolve.{run_once}
use wager_service.Service.{serve, empty}
use wager_service.Service.Books.{serve-Balanced}
use wager_service.Service.Scheduled.{run_once-Balanced}
use wager_service.Invariants.Balance.{Balanced}
use wager_service.Invariants.Due.{HasInt64}
use wager_service.Tests.{brl-Fits, config, settled_bet}
use wager_service.Tests.History.{requests, requests-InRange}

abbrev parked_refund : TxRow
parked_refund = record (Transactions.row_of settled_bet) {
  id = 12;
  external_transaction_id = some "refund-1";
  idempotency_key = some "k2";
  kind = refund;
  reference_external_transaction_id = some "bet-1";
  status = pending_reference;
  pending_reference_next_retry_at = some 6;
}

-- The wallet and its ledger after a short history, and the two rows.
abbrev scheduled : World
scheduled =
    let w = serve config requests empty in
    record w {
      db = record w.db { transactions = Transactions.row_of settled_bet ∷ parked_refund ∷ [] };
    }

scheduled-Balanced : Balanced scheduled.db
scheduled-Balanced = record { at = (serve-Balanced config requests requests-InRange).at }

scheduled-HasInt64 : All HasInt64 scheduled.db.transactions
scheduled-HasInt64 = (brl-Fits 2500 (omega arith), (brl-Fits 2500 (omega arith), tt))

run_once-Balanced_example :
    Balanced (run_once (postgres config.v7) config.policy 7 (pos 10) scheduled).2.db
run_once-Balanced_example =
    run_once-Balanced config.v7 config.policy 7 (pos 10) scheduled scheduled-HasInt64
      scheduled-Balanced
