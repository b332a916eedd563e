-- ===== src/Process/Reversal.antt =====
-- internal/application/process_wager_transaction.go: `validateReversalReference` and `reversalDirection`.
use wager_service.Base.{Bool, not, ◌&&◌, ◌||◌, Option, none, some, ◌==◌, str_eq, if◌then◌else◌}
use wager_service.Errors.{FailureCode, reference_mismatch, reference_not_processed}
use wager_service.Money.{equals}
use wager_service.Wager.{
  Kind, Transaction, bet, win, refund, no_kind, kind_eq, processed, status_eq,
}
use wager_service.Ledger.{Direction, debit, credit}
use wager_service.Process.Request.{Command}

unfoldable pub reversal_direction : Kind → Direction
reversal_direction k = if kind_eq k bet then credit else debit

-- the two tests on the kinds
abbrev pub wrong_kind : Kind → Kind → Bool
wrong_kind expected kind =
    if kind_eq expected no_kind
    then not (kind_eq kind bet) && (not (kind_eq kind win) && not (kind_eq kind refund))
    else not (kind_eq kind expected)

-- `none` is `("", true)`.
unfoldable pub validate_reversal_reference : Command → Transaction → Kind → Option FailureCode
validate_reversal_reference cmd ref expected =
    if wrong_kind expected ref.kind
    then some reference_mismatch
    else if not (status_eq ref.status processed)
    then some reference_not_processed
    else if not (str_eq ref.provider_id cmd.provider_id)
        || (not (ref.player_id == cmd.player_id) || not (ref.wallet_id == cmd.wallet_id))
    then some reference_mismatch
    else if not (str_eq ref.round_id cmd.round_id)
    then some reference_mismatch
    else if not (str_eq ref.money.currency cmd.amount.currency) || not (equals ref.money cmd.amount)
    then some reference_mismatch
    else none
