-- ===== src/Tests/Answers.antt =====
-- Requests to a database with one wallet and one bet (internal/infra/http/handlers.go).
use wager_service.Base.{some}
use wager_service.Errors.{ok}
use wager_service.Postgres.{postgres}
use wager_service.Http.{submit}
use wager_service.Http.Wallets.{open_wallet}
use wager_service.Http.Lookups.{show_transaction, show_by_external_id}
use wager_service.Http.Provider.{ShowsOwn, lookups-ShowsOwn}
use wager_service.Http.Refused.{Unharmed, handlers-Unharmed}
use wager_service.Tests.{config}
use wager_service.Tests.Commands.{opened, bet_result, bet_request, ids}

lookups-ShowsOwn_example :
    ShowsOwn "p" bet_result.1
      (show_transaction (postgres config.v7) ids (some "p") "hundred" bet_result.1)
    × ShowsOwn "p" bet_result.1
        (show_by_external_id (postgres config.v7) ids (some "p") "q" "bet-1" bet_result.1)
lookups-ShowsOwn_example =
    lookups-ShowsOwn config.v7 ids (some "p") bet_result.1 "hundred" "q" "bet-1"

handlers-Unharmed_example :
    Unharmed opened (
      submit (postgres config.v7) config.canonical_hash ids (some "p") "" 5 (ok bet_request) opened)
    × Unharmed opened (
        open_wallet
          (postgres config.v7)
          ids
          (record { now = 1; created_at = 2; updated_at = 3 })
          (ok (record { player_id = "seven"; initial_balance = "-1.00"; currency = "BRL" }))
          opened)
handlers-Unharmed_example =
    handlers-Unharmed config.v7 config.canonical_hash ids (some "p") "" 5 (ok bet_request)
      (record { now = 1; created_at = 2; updated_at = 3 })
      (ok (record { player_id = "seven"; initial_balance = "-1.00"; currency = "BRL" })) opened
