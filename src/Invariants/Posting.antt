-- ===== src/Invariants/Posting.antt =====
-- What one movement of a wallet and its ledger entry have in common
-- (internal/domain/ledger/entry.go and internal/domain/wallet/wallet.go).
use wager_service.Base.{arith, ◌≡◌, String}
use wager_service.Base.Int.{pos, ◌+ℤ◌, neg_ℤ, ◌≤ℤ◌}
use wager_service.Ids.{Uuid, Time}
use wager_service.Errors.{ok}
use wager_service.Money.{Money}
use wager_service.Money.Arithmetic.{Fits}
use wager_service.Wallet.{Wallet, Movement}
use wager_service.Wallet.Movements.{Shifts, debit-Shifts, credit-Shifts}
use wager_service.Ledger
use wager_service.Ledger.{Entry, Direction, debit, credit, other}
use wager_service.Postgres.Database.{LedgerRow}
use wager_service.Postgres.Ledgers
use wager_service.Process.Kinds.{move_by}
use wager_service.Invariants.Stable.{Moves}

-- The row `r` posts the change from `w₀` to `w`.
pub record Posts (w₀ w : Wallet) (r : LedgerRow) : Type 0 where
  pub same_id : w.id ≡ w₀.id
  pub same_wallet : r.wallet_id ≡ w₀.id
  pub same_currency : r.currency ≡ w₀.balance.currency
  pub shift : w.balance.minor_units ≡ w₀.balance.minor_units +ℤ Ledgers.signed_units r
  pub solvent : pos 0 ≤ℤ w.balance.minor_units
  pub fits : Fits w.balance

-- What `Ledger.new` puts into an entry that it accepts.
pub record Enters (wallet_id : Uuid) (direction : Direction) (amount : Money) (e : Entry)
    : Type 0 where
  pub wallet : e.wallet_id ≡ wallet_id
  pub way : e.direction ≡ direction
  pub money : e.money ≡ amount

pub new-Enters :
    (id wallet_id transaction_id : Uuid) (direction : Direction) (amount before after : Money)
    (at : Time) (e : Entry)
    → Ledger.new id wallet_id transaction_id direction amount before after at ≡ ok e
    → Enters wallet_id direction amount e
unfolding Ledger.new
new-Enters id wallet_id transaction_id direction amount before after at e h = ground arith

pub new-other :
    (id wallet_id transaction_id : Uuid) (s : String) (amount before after : Money) (at : Time)
    (e : Entry)
    → ¬ (Ledger.new id wallet_id transaction_id (other s) amount before after at ≡ ok e)
unfolding Ledger.new
new-other id wallet_id transaction_id s amount before after at e = ground arith

module _ (w₀ w : Wallet) (entry : Entry) (hw : Fits w₀.balance)
    (nonneg : pos 0 ≤ℤ w₀.balance.minor_units) where
  posts_debit :
      (amount : Money)
      → Shifts w₀ amount (neg_ℤ amount.minor_units) w
      → Enters w.id debit amount entry
      → Posts w₀ w (Ledgers.row_of entry)
  posts_debit amount s e = ground arith

  posts_credit :
      (amount : Money)
      → Shifts w₀ amount amount.minor_units w
      → Enters w.id credit amount entry
      → Posts w₀ w (Ledgers.row_of entry)
  posts_credit amount s e = ground arith

  posts :
      (dir : Direction) (amount : Money) (at : Time) (mv : Movement) (id tid : Uuid)
      → Fits amount
      → move_by dir w₀ amount at ≡ ok (mv, w)
      → Ledger.new id w.id tid dir amount mv.balance_before mv.balance_after at ≡ ok entry
      → Posts w₀ w (Ledgers.row_of entry)
  posts debit amount at mv id tid ha m n =
      posts_debit amount (debit-Shifts w₀ amount hw ha nonneg at mv w m)
        (new-Enters id w.id tid debit amount _ _ at entry n)
  posts credit amount at mv id tid ha m n =
      posts_credit amount (credit-Shifts w₀ amount hw ha nonneg at mv w m)
        (new-Enters id w.id tid credit amount _ _ at entry n)
  posts (other s) amount at mv id tid ha m n =
      absurd (new-other id w.id tid s amount mv.balance_before mv.balance_after at entry n)

  pub Moves-Posts : Moves w₀ w entry → Posts w₀ w (Ledgers.row_of entry)
  Moves-Posts m =
      posts m.direction m.amount m.at m.movement m.entry_id m.transaction_id m.fits m.moved
        m.entered
