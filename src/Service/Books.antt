-- ===== src/Service/Books.antt =====
-- The books in the life of the service (internal/application on internal/infra/postgres).
use wager_service.Base.{refl, List, All, find, keep}
use wager_service.Service.{Request, InRange, Config, serve, empty}
use wager_service.Service.Keeps.{serve-keeps}
use wager_service.Invariants.Balance.{Balanced}
use wager_service.Invariants.Books.{Balanced-Stable}
use wager_service.Invariants.Opening.{Balanced-Openable}

pub empty-Balanced : Balanced empty.db
unfolding find keep
empty-Balanced = record { at = λ id. refl }

-- After any history of requests with `int64` amounts, starting with empty tables, whichever of them
-- failed: every wallet's stored balance is the sum of its ledger entries, is not negative and fits an
-- `int64`, its entries have its currency, and no entry is left without a wallet.
pub serve-Balanced :
    (c : Config) (rs : List Request) → All InRange rs → Balanced (serve c rs empty).db
serve-Balanced c rs fits =
    serve-keeps Balanced-Stable Balanced-Openable c rs empty fits tt empty-Balanced
