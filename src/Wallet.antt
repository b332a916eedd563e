-- ===== src/Wallet.antt =====
-- internal/domain/wallet/wallet.go. A method that mutates the wallet returns the new one beside its result.
pub mod Movements
use wager_service.Base.{Bool, true, false, not, ◌&&◌, ◌||◌, str_eq, if◌then◌else◌}
use wager_service.Base.Int.{ℤ, pos, ◌+ℤ◌, ltb_ℤ}
use wager_service.Ids.{Uuid, Time, is_nil}
use wager_service.Errors.{
  Result, ok, err, ◌>>=◌, ◌>>◌, refuse_if, invalid_wallet, wallet_currency_mismatch,
  non_positive_amount, insufficient_balance,
}
use wager_service.Money.{Money, is_negative, is_positive, add, subtract}
use wager_service.Money.Int64.{wrap64}

pub record Wallet : Type 0 where
  pub id : Uuid
  pub player_id : Uuid
  pub balance : Money
  pub version : ℤ
  pub created_at : Time
  pub updated_at : Time

-- `New`
unfoldable pub new : Uuid → Uuid → Money → Time → Result Wallet
new id player_id initial_balance at = do
  refuse_if (is_nil id || is_nil player_id) invalid_wallet
  refuse_if (is_negative initial_balance) invalid_wallet
  ok (record {
    id = id;
    player_id = player_id;
    balance = initial_balance;
    version = pos 1;
    created_at = at;
    updated_at = at;
  })

-- `Rehydrate`
unfoldable pub rehydrate : Uuid → Uuid → Money → ℤ → Time → Time → Result Wallet
rehydrate id player_id balance version created_at updated_at = do
  refuse_if (is_nil id || is_nil player_id) invalid_wallet
  refuse_if (ltb_ℤ version (pos 1)) invalid_wallet
  ok (record {
    id = id;
    player_id = player_id;
    balance = balance;
    version = version;
    created_at = created_at;
    updated_at = updated_at;
  })

pub record Movement : Type 0 where
  pub balance_before : Money
  pub balance_after : Money
  pub wallet_version : ℤ

-- The assignments that `Debit` and `Credit` end with, and what they return.
abbrev pub moved : Wallet → Money → Time → Movement × Wallet
moved w after at =
    let version : ℤ = wrap64 (w.version +ℤ pos 1) in
    (
      record { balance_before = w.balance; balance_after = after; wallet_version = version },
      record w { balance = after; version = version; updated_at = at },
    )

unfoldable pub debit : Wallet → Money → Time → Result (Movement × Wallet)
debit w amount at = do
  refuse_if (not (str_eq amount.currency w.balance.currency)) wallet_currency_mismatch
  refuse_if (not (is_positive amount)) non_positive_amount
  after ← subtract w.balance amount
  refuse_if (is_negative after) insufficient_balance
  ok (moved w after at)

unfoldable pub credit : Wallet → Money → Time → Result (Movement × Wallet)
credit w amount at = do
  refuse_if (not (str_eq amount.currency w.balance.currency)) wallet_currency_mismatch
  refuse_if (not (is_positive amount)) non_positive_amount
  after ← add w.balance amount
  ok (moved w after at)

-- the test of `CanDebit` behind its guards
abbrev non_negative : Result Money → Bool
non_negative (ok after) = not (is_negative after)
non_negative (err e) = false

unfoldable pub can_debit : Wallet → Money → Bool
can_debit w amount =
    if not (str_eq amount.currency w.balance.currency) || not (is_positive amount)
    then false
    else non_negative (subtract w.balance amount)
