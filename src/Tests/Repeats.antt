-- ===== src/Tests/Repeats.antt =====
-- The bet of Tests/Commands.antt sent twice, and its row (internal/application/process_wager_transaction.go).
use wager_service.Base.{◌≡◌, ◌≢◌, refl, true, []}
use wager_service.Errors.{ok}
use wager_service.Money.{normalize_currency, matches_currency}
use wager_service.Wager.{Transaction, bet, loss}
use wager_service.Postgres.{postgres}
use wager_service.Postgres.Transactions.{rehydrate_row, row_of}
use wager_service.Postgres.RoundTrip.{rehydrate-row_of}
use wager_service.Process.{execute}
use wager_service.Idempotency.Outcome.{Answered}
use wager_service.Idempotency.Execute.{execute-Answered}
use wager_service.Idempotency.Again.{execute-again}
use wager_service.Tests.{config, bet_command, settled_bet}
use wager_service.Tests.Commands.{opened, bet_result, bet_answer, bet-answered}

real : normalize_currency "BRL" ≡ ok "BRL"
unfolding normalize_currency matches_currency
real = refl

-- the bet, stamped between two microseconds
abbrev stamped : Transaction
stamped = record settled_bet { created_at = 5_250; updated_at = 5_999 }

rehydrate-row_of_example :
    rehydrate_row (row_of stamped)
    ≡ ok (record settled_bet { created_at = 5_000; updated_at = 5_000 })
rehydrate-row_of_example = rehydrate-row_of stamped refl real refl

execute-Answered_example : Answered [] bet_command "h" bet_answer bet_result.1.db.transactions
execute-Answered_example =
    execute-Answered config.v7 config.canonical_hash bet_command "h" opened bet_result.1 bet_answer
      refl bet-answered

no_loss : bet ≢ loss
no_loss e = cc

execute-again_example :
    execute
      (postgres config.v7)
      config.canonical_hash
      (record bet_command { correlation_id = 77; now = 8 })
      bet_result.1
    ≡ (ok (record bet_answer { idempotent_replay = true }), bet_result.1)
execute-again_example =
    execute-again config.v7 config.canonical_hash bet_command "h" opened bet_result.1 bet_answer 77
      8 refl refl real no_loss bet-answered refl
