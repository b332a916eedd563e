-- ===== src/Wallet/Movements.antt =====
-- internal/domain/wallet/wallet.go: `Debit`, `Credit` and `CanDebit` on every branch.
use wager_service.Base.{◌≡◌, true, false, not, arith, str_eq, str_eq_comm, eq_iff, if◌then◌else◌}
use wager_service.Base.Int.{ℤ, pos, ◌+ℤ◌, neg_ℤ, ◌≤ℤ◌, ltb_ℤ, leb_ℤ, +ℤ_parts, neg_ℤ_parts}
use wager_service.Ids.{Time}
use wager_service.Errors.{
  ok, err, wallet_currency_mismatch, non_positive_amount, insufficient_balance, overflow,
}
use wager_service.Money.{Money, subtract, is_positive}
use wager_service.Money.Int64.{max_int64}
use wager_service.Money.Arithmetic.{Fits, add_exact, subtract_exact}
use wager_service.Wallet.{Wallet, Movement, debit, credit, can_debit, moved}

-- The balance of `w` changed by `delta`.
abbrev pub shifted : Wallet → ℤ → Money
shifted w delta = record w.balance { minor_units = w.balance.minor_units +ℤ delta }

module _ (w : Wallet) (amount : Money) (hw : Fits w.balance) (ha : Fits amount)
    (nonneg : pos 0 ≤ℤ w.balance.minor_units) where
  -- what `Subtract` gives on an amount of the wallet's currency that is positive
  subtract_positive :
      str_eq w.balance.currency amount.currency ≡ true
      → ltb_ℤ (pos 0) amount.minor_units ≡ true
      → subtract w.balance amount ≡ ok (shifted w (neg_ℤ amount.minor_units))
  subtract_positive same p = ground (
    arith,
    subtract_exact w.balance amount hw ha,
    +ℤ_parts w.balance.minor_units (neg_ℤ amount.minor_units),
    neg_ℤ_parts amount.minor_units,
  )

  -- `Debit` of a wallet whose balance is not below zero, the balance and the amount being `int64` values: it refuses another currency, then an amount that is not
  -- positive, then an amount above the balance; otherwise the balance falls by exactly the amount.
  pub debit_exact :
      (at : Time)
      → debit w amount at ≡ (
          if not (str_eq amount.currency w.balance.currency)
          then err wallet_currency_mismatch
          else if not (is_positive amount)
          then err non_positive_amount
          else if ltb_ℤ w.balance.minor_units amount.minor_units
          then err insufficient_balance
          else ok (moved w (shifted w (neg_ℤ amount.minor_units)) at))
  unfolding debit
  debit_exact at = ground (
    arith,
    str_eq_comm amount.currency w.balance.currency,
    subtract_positive,
    +ℤ_parts w.balance.minor_units (neg_ℤ amount.minor_units),
    neg_ℤ_parts amount.minor_units,
  )

  -- `Credit` of a wallet whose balance is not below zero, the balance and the amount being `int64` values: it
  -- refuses another currency, then an amount that is not positive, then a sum above the
  -- largest `int64`; otherwise the balance rises by exactly the amount.
  pub credit_exact :
      (at : Time)
      → credit w amount at ≡ (
          if not (str_eq amount.currency w.balance.currency)
          then err wallet_currency_mismatch
          else if not (is_positive amount)
          then err non_positive_amount
          else if leb_ℤ (w.balance.minor_units +ℤ amount.minor_units) max_int64
          then ok (moved w (shifted w amount.minor_units) at)
          else err overflow)
  unfolding credit
  credit_exact at = ground (
    arith,
    str_eq_comm amount.currency w.balance.currency,
    add_exact w.balance amount hw ha,
    +ℤ_parts w.balance.minor_units amount.minor_units,
  )

-- `CanDebit` says exactly whether `Debit` goes through.
pub can_debit-debit :
    (w : Wallet) (amount : Money) (at : Time)
    → can_debit w amount ≡ elim (debit w amount at) [ ok _ ↦ true | err _ ↦ false ]
unfolding can_debit debit
can_debit-debit w amount at = ground arith

-- What a movement that went through has done.
pub record Shifts (w₀ : Wallet) (amount : Money) (delta : ℤ) (w : Wallet) : Type 0 where
  pub same_id : w.id ≡ w₀.id
  pub same_currency : amount.currency ≡ w₀.balance.currency
  pub shift : w.balance.minor_units ≡ w₀.balance.minor_units +ℤ delta
  pub solvent : pos 0 ≤ℤ w.balance.minor_units
  pub fits : Fits w.balance

module _ (w₀ : Wallet) (amount : Money) (hw : Fits w₀.balance) (ha : Fits amount)
    (nonneg : pos 0 ≤ℤ w₀.balance.minor_units) (at : Time) (mv : Movement) (w : Wallet) where
  pub debit-Shifts : debit w₀ amount at ≡ ok (mv, w) → Shifts w₀ amount (neg_ℤ amount.minor_units) w
  debit-Shifts e = ground (
    arith,
    debit_exact w₀ amount hw ha nonneg at,
    eq_iff amount.currency w₀.balance.currency,
    +ℤ_parts w₀.balance.minor_units (neg_ℤ amount.minor_units),
    neg_ℤ_parts amount.minor_units,
  )

  pub credit-Shifts : credit w₀ amount at ≡ ok (mv, w) → Shifts w₀ amount amount.minor_units w
  credit-Shifts e = ground (
    arith,
    credit_exact w₀ amount hw ha nonneg at,
    eq_iff amount.currency w₀.balance.currency,
    +ℤ_parts w₀.balance.minor_units amount.minor_units,
  )
