-- ===== src/Tests/Domain.antt =====
-- Amounts, wallets, entries, transactions and delays (internal/domain and internal/infra/rabbitmq).
use wager_service.Base.{arith, ◌+◌, ◌*◌, ◌≡◌, refl, true, false, none, some, List, [], ◌∷◌}
use wager_service.Base.Int.{pos, negsuc, ◌+ℤ◌, ◌*ℤ◌, neg_ℤ}
use wager_service.Ids.{second}
use wager_service.Errors.{ok, err, balance_mismatch}
use wager_service.Money.{add, subtract, parse, to_string, normalize_currency}
use wager_service.Money.Int64.{
  max_int64, checked_add, checked_mul, checked_add_exact, checked_mul_exact,
}
use wager_service.Money.Arithmetic.{add_exact, subtract_exact, subtract-add}
use wager_service.Money.RoundTrip.{parse-to_string}
use wager_service.Money.Acceptance.{parse_exact}
use wager_service.Wallet.{debit, credit, can_debit, moved}
use wager_service.Wallet.Movements.{shifted, debit_exact, credit_exact, can_debit-debit}
use wager_service.Wager.{
  pending, new_external, check_external, validate_amount_for_kind, external_transaction,
}
use wager_service.Wager.Lifecycle.{
  Operation, park, process, run, Reaches, Kept, run-Kept, run-terminal,
}
use wager_service.Ledger
use wager_service.Ledger.{Direction}
use wager_service.Ledger.Equation.{new_exact}
use wager_service.Backoff.{next_attempt, backoff_for, next_backoff}
use wager_service.Backoff.Bounds.{next_attempt_exact, backoff_for_exact, next_backoff_exact}
use wager_service.Tests.{brl, brl-Fits, purse, config, bet_params, settled_bet}

debit_exact_example :
    debit purse (brl 2500) 5 ≡ ok (moved purse (shifted purse (neg_ℤ (pos 2500))) 5)
debit_exact_example =
    debit_exact purse (brl 2500) (brl-Fits 10000 (omega arith)) (brl-Fits 2500 (omega arith))
      (omega arith) 5

credit_exact_example : credit purse (brl 2500) 5 ≡ ok (moved purse (brl 12500) 5)
unfolding ◌+ℤ◌
credit_exact_example =
    credit_exact purse (brl 2500) (brl-Fits 10000 (omega arith)) (brl-Fits 2500 (omega arith))
      (omega arith) 5

can_debit-debit_example :
    can_debit purse (brl 99999) ≡ elim (debit purse (brl 99999) 5) [ ok _ ↦ true | err _ ↦ false ]
can_debit-debit_example = can_debit-debit purse (brl 99999) 5

checked_add_exact_example : checked_add max_int64 (pos 1) ≡ none
unfolding ◌+ℤ◌
checked_add_exact_example =
    checked_add_exact max_int64 (pos 1) (omega arith, omega arith) (omega arith, omega arith)

checked_mul_exact_example : checked_mul (pos 25) (pos 100) ≡ some (pos 2500)
unfolding ◌*ℤ◌
checked_mul_exact_example = checked_mul_exact (pos 25) (omega arith, omega arith)

subtract_exact_example :
    subtract (brl 100) (brl 250) ≡ ok (record { minor_units = negsuc 149; currency = "BRL" })
unfolding ◌+ℤ◌ neg_ℤ
subtract_exact_example =
    subtract_exact (brl 100) (brl 250) (brl-Fits 100 (omega arith)) (brl-Fits 250 (omega arith))

sum_of_two : add (brl 100) (brl 250) ≡ ok (brl 350)
unfolding ◌+ℤ◌
sum_of_two = add_exact (brl 100) (brl 250) (brl-Fits 100 (omega arith)) (brl-Fits 250 (omega arith))

subtract-add_example : subtract (brl 350) (brl 250) ≡ ok (brl 100)
subtract-add_example =
    subtract-add (brl 100) (brl 250) {sum = brl 350} (brl-Fits 100 (omega arith))
      (brl-Fits 250 (omega arith)) (ground arith) sum_of_two

brl-valid : normalize_currency "BRL" ≡ ok "BRL"
unfolding normalize_currency
brl-valid = refl

parse-to_string_example : parse (to_string (brl 2505)) "BRL" ≡ ok (brl 2505)
parse-to_string_example =
    parse-to_string (brl 2505) (brl-Fits 2505 (omega arith)) (ground arith) brl-valid

bet_params-accepted : new_external bet_params 5 ≡ ok (external_transaction bet_params 5)
unfolding new_external check_external validate_amount_for_kind
bet_params-accepted = refl

abbrev calls : List Operation
calls = park 6 ∷ process (brl 7500) 7 ∷ process (brl 0) 8 ∷ []

run-Kept_example :
    Reaches pending (run calls (external_transaction bet_params 5)).status
    × Kept (run calls (external_transaction bet_params 5))
run-Kept_example =
    run-Kept bet_params 5 calls (external_transaction bet_params 5) bet_params-accepted

run-terminal_example : run calls settled_bet ≡ settled_bet
run-terminal_example = run-terminal calls settled_bet refl

new_exact_example :
    Ledger.new 1 3 11 Ledger.debit (brl 2500) (brl 10000) (brl 7499) 5 ≡ err balance_mismatch
unfolding ◌+ℤ◌ neg_ℤ
new_exact_example =
    new_exact 1 3 11 (brl 2500) (brl 10000) (brl 7499) 5 (brl-Fits 2500 (omega arith))
      (brl-Fits 10000 (omega arith)) Ledger.debit

next_attempt_exact_example :
    next_attempt (record { base = pos (2 * second); max = pos (300 * second) }) 1 4
    ≡ 1 + 16 * second
next_attempt_exact_example =
    next_attempt_exact (2 * second) (300 * second) 1 4 (omega arith) (omega arith)

backoff_for_exact_example : backoff_for 5 ≡ 32 * second
backoff_for_exact_example = backoff_for_exact 5

next_backoff_exact_example : next_backoff config.policy 3 ≡ 16
next_backoff_exact_example = next_backoff_exact config.policy 3

parse_exact_example :
    parse (b'-' ∷ b'2' ∷ b'5' ∷ b'.' ∷ b'0' ∷ b'7' ∷ []) "BRL"
    ≡ ok (record { minor_units = negsuc 2506; currency = "BRL" })
unfolding neg_ℤ
parse_exact_example =
    parse_exact true b'2' (b'5' ∷ []) b'0' b'7' "BRL" brl-valid
      ((omega arith, omega arith), ((omega arith, omega arith), tt))
      ((omega arith, omega arith), ((omega arith, omega arith), tt))
