-- ===== src/Ledger.antt =====
-- internal/domain/ledger/entry.go
pub mod Equation
use wager_service.Base.{Bool, true, false, not, ◌||◌, String, if◌then◌else◌}
use wager_service.Ids.{Uuid, Time, is_nil}
use wager_service.Errors.{Result, ok, err, ◌>>=◌, ◌>>◌, refuse_if, invalid_entry, balance_mismatch}
use wager_service.Money.{Money, no_money, is_positive, add, subtract, negate, equals}

-- `Direction` is a string; `other` is any string that is neither constant.
pub data Direction : Type 0 where
  debit credit : Direction
  other : String → Direction

abbrev pub is_valid : Direction → Bool
is_valid (other s) = false
is_valid _ = true

pub record Entry : Type 0 where
  pub id : Uuid
  pub wallet_id : Uuid
  pub transaction_id : Uuid
  pub direction : Direction
  pub money : Money
  pub balance_before : Money
  pub balance_after : Money
  pub created_at : Time

-- The `switch` of `New`: the balance that the entry should lead to. For another direction, which the
-- guard before it refuses, `expected` keeps the zero `Money`.
unfoldable pub expected_balance : Direction → Money → Money → Result Money
expected_balance debit before amount = subtract before amount
expected_balance credit before amount = add before amount
expected_balance (other s) before amount = ok no_money

-- `New`
unfoldable pub new : Uuid → Uuid → Uuid → Direction → Money → Money → Money → Time → Result Entry
new id wallet_id transaction_id direction amount balance_before balance_after at = do
  refuse_if (is_nil id || (is_nil wallet_id || is_nil transaction_id)) invalid_entry
  refuse_if (not (is_valid direction)) invalid_entry
  refuse_if (not (is_positive amount)) invalid_entry
  expected ← expected_balance direction balance_before amount
  refuse_if (not (equals expected balance_after)) balance_mismatch
  ok (record {
    id = id;
    wallet_id = wallet_id;
    transaction_id = transaction_id;
    direction = direction;
    money = amount;
    balance_before = balance_before;
    balance_after = balance_after;
    created_at = at;
  })

-- `Rehydrate`, on the fields of the entry
unfoldable pub rehydrate : Entry → Result Entry
rehydrate e = do
  refuse_if
      (is_nil e.id
        || (is_nil e.wallet_id || (is_nil e.transaction_id || not (is_valid e.direction))))
      invalid_entry
  ok e

-- the branch of `SignedAmount` on the direction
abbrev pub sign_by : Direction → Money → Result Money
sign_by debit m = negate m
sign_by _ m = ok m

unfoldable pub signed_amount : Entry → Result Money
signed_amount e = sign_by e.direction e.money
