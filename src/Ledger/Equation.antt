-- ===== src/Ledger/Equation.antt =====
-- internal/domain/ledger/entry.go: the equation between the two balances of an entry and its amount.
use wager_service.Base.{arith, ◌≡◌, true, not, ◌&&◌, ◌||◌, str_eq, if◌then◌else◌}
use wager_service.Base.Int.{ℤ, ◌+ℤ◌, neg_ℤ, eqb_ℤ, neg_ℤ_parts}
use wager_service.Ids.{Uuid, Time, is_nil}
use wager_service.Errors.{
  Result, ◌>>=◌, ◌>>◌, refuse_if, ok, err, overflow, money_currency_mismatch, invalid_entry,
  balance_mismatch,
}
use wager_service.Money.{Money, is_positive, equals}
use wager_service.Money.Int64.{in_int64}
use wager_service.Money.Arithmetic.{Fits, add_exact, subtract_exact}
use wager_service.Ledger
use wager_service.Ledger.{Entry, Direction, debit, credit, other, is_valid, signed_amount}

-- The change that a direction and an amount mean.
abbrev pub change : Direction → Money → ℤ
change credit amount = amount.minor_units
change _ amount = neg_ℤ amount.minor_units

-- The last checks of `New`: what the balance after the entry should be.
abbrev pub checked_balance : Money → ℤ → Money → Entry → Result Entry
checked_balance before delta after e =
    if in_int64 (before.minor_units +ℤ delta)
    then if str_eq before.currency after.currency
        && eqb_ℤ (before.minor_units +ℤ delta) after.minor_units
      then ok e
      else err balance_mismatch
    else err overflow

module _ (id wallet_id transaction_id : Uuid) (amount before after : Money) (at : Time)
    (ha : Fits amount) (hb : Fits before) where
  abbrev entry : Direction → Entry
  entry direction = record {
    id = id;
    wallet_id = wallet_id;
    transaction_id = transaction_id;
    direction = direction;
    money = amount;
    balance_before = before;
    balance_after = after;
    created_at = at;
  }

  -- the `switch` and the last check, for an amount that is positive
  expected_exact :
      (direction : Direction)
      → is_valid direction ≡ true
      → is_positive amount ≡ true
      → (do
        expected ← Ledger.expected_balance direction before amount
        refuse_if (not (equals expected after)) balance_mismatch
        ok (entry direction))
        ≡ (if not (str_eq before.currency amount.currency)
            then err money_currency_mismatch
            else checked_balance before (change direction amount) after (entry direction))
  unfolding Ledger.expected_balance equals
  expected_exact debit v p =
      ground (arith, subtract_exact before amount hb ha, neg_ℤ_parts amount.minor_units)
  expected_exact credit v p = ground (arith, add_exact before amount hb ha)
  expected_exact (other s) v p = ground arith

  -- `New` on `int64` amounts: it refuses a nil identifier, an unknown direction and an amount that is not
  -- positive, then two currencies, then a balance beyond `int64`, then a balance after the entry that is
  -- not the balance before it changed by exactly the amount; every other entry it accepts as given.
  pub new_exact :
      (direction : Direction)
      → Ledger.new id wallet_id transaction_id direction amount before after at ≡ (
          if is_nil id || (is_nil wallet_id || is_nil transaction_id)
          then err invalid_entry
          else if not (is_valid direction)
          then err invalid_entry
          else if not (is_positive amount)
          then err invalid_entry
          else if not (str_eq before.currency amount.currency)
          then err money_currency_mismatch
          else checked_balance before (change direction amount) after (entry direction))
  unfolding Ledger.new
  new_exact direction = ground (arith, expected_exact direction)
