-- ===== src/Bank.antt =====
-- An abstract bank: what a client of the service (README.md) may rely on, without its tables, versions, keys
-- and events. It has the balances of the wallets, and what each request may do to them.
pub mod Tables
pub mod Openings
pub mod Payments
pub mod Refinement
use wager_service.Base.{◌≡◌, Option, none, some, List, [], ◌∷◌, ◌==◌, ◌⊎◌, if◌then◌else◌}
use wager_service.Base.Int.{ℤ, pos, ◌+ℤ◌, neg_ℤ, ◌≤ℤ◌}
use wager_service.Ids.{Uuid}
use wager_service.Money.{Money}
use wager_service.Ledger.{Direction, debit}
use wager_service.OpenWallet.{OpenWalletCommand}
use wager_service.Process.Request.{Command}
use wager_service.Invariants.Effect.{Way}
use wager_service.Service.{Request, open_wallet, submit}

-- The balance of each wallet, if there is such a wallet.
abbrev pub Bank : Type 0
Bank = Uuid → Option Money

abbrev pub Unmoved : Bank → Bank → Type 0
Unmoved b b' = (id : Uuid) → b' id ≡ b id

abbrev pub put : Uuid → Money → Bank → Bank
put id m b id' = if id == id' then some m else b id'

-- The balance after a payment of that amount in that direction.
abbrev pub paid : Direction → ℤ → Money → Money
paid debit units m = record m { minor_units = m.minor_units +ℤ neg_ℤ units }
paid _ units m = record m { minor_units = m.minor_units +ℤ units }

-- A bet takes its amount from the wallet that it names, a win and a refund give theirs, a rollback does the
-- one or the other; in the wallet's currency, and never below zero.
pub record Paid (cmd : Command) (b b' : Bank) : Type 0 where
  pub before : Money
  pub direction : Direction
  pub way : Way cmd.kind direction
  pub held : b cmd.wallet_id ≡ some before
  pub currency : cmd.amount.currency ≡ before.currency
  pub covered : pos 0 ≤ℤ (paid direction cmd.amount.minor_units before).minor_units
  pub after : Unmoved (put cmd.wallet_id (paid direction cmd.amount.minor_units before) b) b'

-- A wallet that was not there has the initial balance, which is not negative.
pub record Opened (cmd : OpenWalletCommand) (b b' : Bank) : Type 0 where
  pub id : Uuid
  pub free : b id ≡ none
  pub solvent : pos 0 ≤ℤ cmd.initial_balance.minor_units
  pub after : Unmoved (put id cmd.initial_balance b) b'

-- What one request may do: nothing, or one opening or payment. The resolver and the reconciliation do
-- nothing.
abbrev pub Step : Request → Bank → Bank → Type 0
Step (open_wallet cmd) b b' = Unmoved b b' ⊎ Opened cmd b b'
Step (submit cmd) b b' = Unmoved b b' ⊎ Paid cmd b b'
Step _ b b' = Unmoved b b'

-- A bank that goes through the requests one by one.
abbrev pub Run : List Request → Bank → Bank → Type 0
Run [] b b' = Unmoved b b'
Run (r ∷ rs) b b' = (mid : Bank) × (Step r b mid × Run rs mid b')
