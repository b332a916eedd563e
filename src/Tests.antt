-- ===== src/Tests.antt =====
-- Concrete inputs at which the theorems about the program apply.
mod Domain
mod History
mod Commands
mod Repeats
mod Tokens
mod Pages
mod Answers
mod Deliveries
mod Polls
mod Retries
use wager_service.Base.{
  find, update, any, ◌↔◌, ◌⊎◌, arith, ℕ, ◌+◌, ◌*◌, ◌^◌, ◌<◌, ◌≡◌, refl, true, false, none, some,
  List, [], ◌∷◌, All,
}
use wager_service.Base.Int.{pos, negsuc, ◌+ℤ◌, ◌*ℤ◌, neg_ℤ}
use wager_service.Ids.{second}
use wager_service.Errors.{no_code, ok, err, balance_mismatch}
use wager_service.Money.{
  equals, from_minor_units, Money, add, subtract, parse, to_string, normalize_currency,
}
use wager_service.Money.Int64.{
  checked_negate, wrap64, max_int64, checked_add, checked_mul, checked_add_exact, checked_mul_exact,
}
use wager_service.Money.Arithmetic.{Fits, add_exact, subtract_exact, subtract-add}
use wager_service.Money.RoundTrip.{parse-to_string}
use wager_service.Wallet.{Wallet, debit, credit, can_debit, moved}
use wager_service.Wallet.Movements.{shifted, debit_exact, credit_exact, can_debit-debit}
use wager_service.Wager.{
  no_kind, win, Transaction, ExternalParams, processed, bet, refund, pending, new_external,
  check_external, validate_amount_for_kind, external_transaction,
}
use wager_service.Wager.Lifecycle.{
  Operation, park, process, run, Reaches, Kept, run-Kept, run-terminal,
}
use wager_service.Ledger.{Direction}
use wager_service.Ledger.Equation.{new_exact}
use wager_service.Postgres.{postgres}
use wager_service.Process.Request.{Command}
use wager_service.Resolve.{run_once}
use wager_service.Backoff.{next_attempt, backoff_for, next_backoff}
use wager_service.Backoff.Bounds.{next_attempt_exact, backoff_for_exact, next_backoff_exact}
use wager_service.Errors.{Result}
use wager_service.Ports.{nil_if_missing, pure, fail, lift, or_nil, attempt, ◌>>=◌}
use wager_service.Postgres.Database.{World}
use wager_service.Process.{execute}
use wager_service.Process.Matching.{Matches, validate-Matches}
use wager_service.Process.Reversal.{validate_reversal_reference}
use wager_service.Process.Request.{ProcessResult, result_processed}
use wager_service.Invariants.Effect.{Effect}
use wager_service.Invariants.Money.{execute-Effect}
use wager_service.Service.{
  Request, Config, InRange, open_wallet, submit, resolve_pending, reconcile, serve, empty,
}
use wager_service.Service.Books.{serve-Balanced}
use wager_service.Service.Pending.{run_once-serve}
use wager_service.Service.Ledger.{serve-Extends}
use wager_service.Service.Reconciliation.{answered, reconcile_exact}
use wager_service.Invariants.Balance.{Balanced, entries}
use wager_service.Invariants.History.{Extends}

abbrev pub brl : ℕ → Money
brl n = record { minor_units = pos n; currency = "BRL" }

pub brl-Fits : (n : ℕ) → n < 2 ^ 63 → Fits (brl n)
brl-Fits n h = (omega arith, omega arith)

-- A wallet with 100.00.
abbrev pub purse : Wallet
purse = record {
  id = 3;
  player_id = 7;
  balance = brl 10000;
  version = pos 1;
  created_at = 1;
  updated_at = 1;
}

-- A bet of 25.00, and the reversal of a bet that never came.
abbrev pub bet_command : Command
bet_command = record {
  provider_id = "p";
  external_transaction_id = "bet-1";
  idempotency_key = "k1";
  player_id = 7;
  wallet_id = 100;
  round_id = "r";
  game_id = "g";
  kind = bet;
  amount = brl 2500;
  reference_external_transaction_id = "";
  correlation_id = 9;
  now = 5;
  inbox = none;
}

abbrev pub refund_command : Command
refund_command = record bet_command {
  external_transaction_id = "refund-1";
  idempotency_key = "k2";
  kind = refund;
  reference_external_transaction_id = "bet-2";
  now = 6;
}

abbrev pub config : Config
config = record {
  v7 = λ n. 100 + n;
  canonical_hash = λ p. ok "h";
  policy = record { max_attempts = 10; max_age = 100; base_backoff = 2 };
}

-- A transaction as the bet above creates it.
abbrev pub bet_params : ExternalParams
bet_params = record {
  id = 11;
  provider_id = "p";
  external_transaction_id = "bet-1";
  idempotency_key = "k1";
  payload_hash = "h";
  wallet_id = 100;
  player_id = 7;
  round_id = "r";
  game_id = "g";
  kind = bet;
  money = brl 2500;
  reference_external_transaction_id = "";
}

abbrev pub settled_bet : Transaction
settled_bet = record (external_transaction bet_params 5) {
  status = processed;
  resulting_balance = some (brl 7500);
}
