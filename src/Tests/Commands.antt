-- ===== src/Tests/Commands.antt =====
-- One bet against a database with one wallet (internal/application/process_wager_transaction.go).
use wager_service.Base.{find, update, any, ◌↔◌, ◌⊎◌, arith, ◌≡◌, refl, false, none, some, [], ◌∷◌}
use wager_service.Base.Int.{pos, ◌+ℤ◌, ◌*ℤ◌, neg_ℤ}
use wager_service.Errors.{no_code, ok}
use wager_service.Money.{equals, from_minor_units, subtract, parse, normalize_currency}
use wager_service.Money.Int64.{checked_negate, wrap64, checked_add, checked_mul}
use wager_service.Money.Arithmetic.{Fits}
use wager_service.Wallet.{Wallet, debit, credit, can_debit, moved}
use wager_service.Wager.{
  no_kind, win, Transaction, ExternalParams, processed, bet, refund, pending, new_external,
  check_external, validate_amount_for_kind, external_transaction,
}
use wager_service.Ledger
use wager_service.Ledger.{Direction}
use wager_service.Postgres.{postgres}
use wager_service.Postgres.Wallets
use wager_service.Process.Request.{Command}
use wager_service.Errors.{Result}
use wager_service.Ports.{pure, fail, lift, or_nil, attempt, ◌>>=◌}
use wager_service.Postgres.Database.{World}
use wager_service.Postgres.Transactions
use wager_service.Postgres.Ledgers
use wager_service.Postgres.Outbox
use wager_service.Process
use wager_service.Process.Kinds
use wager_service.Process.{execute}
use wager_service.Process.Outcome
use wager_service.Wallet
use wager_service.Wager
use wager_service.Events
use wager_service.Process.Matching.{Matches, validate-Matches}
use wager_service.Process.Reversal.{validate_reversal_reference}
use wager_service.Process.Request.{ProcessResult, result_processed}
use wager_service.Invariants.Effect.{Effect}
use wager_service.Invariants.Money.{execute-Effect}
use wager_service.Transport.{WagerOperationRequest, to_command}
use wager_service.Http.{submit}
use wager_service.Http.Money.{OnlyCreated, submit-OnlyCreated}
use wager_service.Money.Reading.{Spells}
use wager_service.Transport.Range.{to_command-Fits}
use wager_service.Ids.{Uuid}
use wager_service.Base.{ℕ, String, Option, codes, str_eq, if◌then◌else◌}
use wager_service.Base.Int.{pos}
use wager_service.Money.{parse_external_amount, matches_currency, units_of}
use wager_service.Money.Int64.{quo64}
use wager_service.Money.Decimal.{
  match_amount, match_unsigned, match_fraction, span_digits, parse_int,
}
use wager_service.Wager.{is_external, is_blank}
use wager_service.Tests.{brl, brl-Fits, purse, bet_command, refund_command, config, settled_bet}

-- A database with one wallet, and what the bet leaves and answers there.
abbrev pub opened : World
opened = record {
  db = record {
    wallets = record purse { id = 100 } ∷ [];
    transactions = [];
    ledger = [];
    inbox = [];
    outbox = [];
  };
  drawn = 0;
}

abbrev pub bet_result : Result ProcessResult × World
bet_result = execute (postgres config.v7) config.canonical_hash bet_command opened

abbrev pub bet_answer : ProcessResult
bet_answer = record {
  transaction_id = 100;
  status = result_processed;
  balance = some (brl 7500);
  failure_code = no_code;
  idempotent_replay = false;
}

pub bet-answered : bet_result ≡ (ok bet_answer, bet_result.1)
unfolding execute Process.execute_body Process.process_idempotently Process.replay_or_start
    Process.start Process.created Kinds.dispatch Kinds.process_bet Kinds.finish_bet
    Outcome.commit_movement Outcome.append_event Outcome.append_processed_event
    Outcome.append_balance_changed_event Outcome.correlation_id
    Transactions.find_by_provider_and_external_id Transactions.find_by_idempotency_key
    Transactions.create Transactions.save Transactions.rehydrate_row Wallets.find_by_id
    Wallets.lookup Wallets.scan_wallet Wallets.save Ledgers.append Outbox.append Wallet.rehydrate
    debit subtract equals from_minor_units normalize_currency new_external check_external
    validate_amount_for_kind Wager.rehydrate Wager.mark_processed Ledger.new Ledger.expected_balance
    Events.new_envelope Events.new_processed Events.new_balance_changed find update any checked_add
    checked_negate wrap64 ◌+ℤ◌ neg_ℤ ◌>>=◌ pure fail lift or_nil attempt
bet-answered = refl

execute-Effect_example :
    Effect opened.db.wallets opened.db.ledger bet_command bet_answer bet_result.1.db
execute-Effect_example =
    execute-Effect config.v7 config.canonical_hash bet_command opened bet_result.1 bet_answer
      (brl-Fits 2500 (omega arith)) bet-answered

-- The bet's reference as a later refund meets it.
abbrev refund_of_bet : Command
refund_of_bet = record refund_command { reference_external_transaction_id = "bet-1" }

validate-Matches_example :
    ((validate_reversal_reference refund_of_bet settled_bet bet ≡ none)
      ↔ ((settled_bet.kind ≡ bet) × Matches refund_of_bet settled_bet))
    × ((validate_reversal_reference refund_of_bet settled_bet no_kind ≡ none) ↔ (
        ((settled_bet.kind ≡ bet) ⊎ ((settled_bet.kind ≡ win) ⊎ (settled_bet.kind ≡ refund)))
        × Matches refund_of_bet settled_bet))
validate-Matches_example = validate-Matches refund_of_bet settled_bet

-- The bet as a request's texts.
abbrev pub bet_request : WagerOperationRequest
bet_request = record {
  external_transaction_id = "bet-1";
  idempotency_key = "k1";
  player_id = "seven";
  wallet_id = "hundred";
  round_id = "r";
  game_id = "g";
  kind = "BET";
  amount = "25.00";
  currency = "BRL";
  reference_external_transaction_id = "";
}

abbrev pub ids : String → Option Uuid
ids s = if str_eq s "seven" then some 7 else if str_eq s "hundred" then some 100 else none

bet-made : to_command ids bet_request "p" 5 9 none ≡ ok bet_command
unfolding to_command parse_external_amount parse normalize_currency matches_currency match_amount
    match_unsigned match_fraction span_digits units_of parse_int checked_mul checked_add
    checked_negate wrap64 quo64 ◌+ℤ◌ ◌*ℤ◌ neg_ℤ
bet-made = refl

to_command-Fits_example :
    Fits bet_command.amount
    × (bet_command.amount.currency ≡ "BRL")
    × (n : ℕ) × Spells (codes "25.00") n
    × (bet_command.amount.minor_units ≡ pos n)
to_command-Fits_example = to_command-Fits ids bet_request "p" 5 9 none bet_command bet-made

submit-OnlyCreated_example :
    OnlyCreated opened (
      submit (postgres config.v7) config.canonical_hash ids (some "p") "" 5 (ok bet_request) opened)
submit-OnlyCreated_example =
    submit-OnlyCreated config.v7 config.canonical_hash ids (some "p") "" 5 (ok bet_request) opened
