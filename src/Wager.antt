-- ===== src/Wager.antt =====
-- internal/domain/wager/transaction.go. A method that mutates the transaction returns the new one.
pub mod Lifecycle
use wager_service.Base.{
  Bool, true, false, not, ◌&&◌, ◌||◌, String, Option, none, some, str_eq, if◌then◌else◌,
}
use wager_service.Ids.{Uuid, Time, is_nil}
use wager_service.Errors.{
  Result, ok, err, ◌>>=◌, ◌>>◌, refuse_if, FailureCode, no_code, is_no_code, invalid_transaction,
  invalid_kind_for_operation, invalid_transition,
}
use wager_service.Money.{Money, is_zero, is_positive}

-- `Kind` is a string; `other` is any string that is none of the constants.
pub data Kind : Type 0 where
  opening bet win loss refund rollback : Kind
  other : String → Kind

-- `wager.Kind("")`
abbrev pub no_kind : Kind
no_kind = other ""

-- Go's `==` on kinds
abbrev pub kind_eq : Kind → Kind → Bool
kind_eq opening opening = true
kind_eq bet bet = true
kind_eq win win = true
kind_eq loss loss = true
kind_eq refund refund = true
kind_eq rollback rollback = true
kind_eq (other s) (other t) = str_eq s t
kind_eq _ _ = false

abbrev pub is_external : Kind → Bool
is_external opening = false
is_external (other s) = false
is_external _ = true

abbrev pub requires_reference : Kind → Bool
requires_reference k = kind_eq k refund || kind_eq k rollback

abbrev pub may_carry_reference : Kind → Bool
may_carry_reference k = kind_eq k refund || (kind_eq k rollback || kind_eq k win)

pub data Status : Type 0 where
  pending pending_reference processed rejected failed : Status

abbrev pub status_eq : Status → Status → Bool
status_eq pending pending = true
status_eq pending_reference pending_reference = true
status_eq processed processed = true
status_eq rejected rejected = true
status_eq failed failed = true
status_eq _ _ = false

abbrev pub is_terminal : Status → Bool
is_terminal s = status_eq s processed || (status_eq s rejected || status_eq s failed)

pub record ExternalParams : Type 0 where
  pub id : Uuid
  pub provider_id : String
  pub external_transaction_id : String
  pub idempotency_key : String
  pub payload_hash : String
  pub wallet_id : Uuid
  pub player_id : Uuid
  pub round_id : String
  pub game_id : String
  pub kind : Kind
  pub money : Money
  pub reference_external_transaction_id : String

pub record Transaction : Type 0 where
  pub id : Uuid
  pub provider_id : String
  pub external_transaction_id : String
  pub idempotency_key : String
  pub payload_hash : String
  pub wallet_id : Uuid
  pub player_id : Uuid
  pub round_id : String
  pub game_id : String
  pub kind : Kind
  pub money : Money
  pub reference_external_transaction_id : String
  pub resolved_reference_transaction_id : Option Uuid
  pub status : Status
  pub failure_code : FailureCode
  pub resulting_balance : Option Money
  pub created_at : Time
  pub updated_at : Time

-- `validateAmountForKind`
unfoldable pub validate_amount_for_kind : Kind → Money → Result (Unit {0})
validate_amount_for_kind loss m = refuse_if (not (is_zero m)) invalid_transaction
validate_amount_for_kind (other s) m = err invalid_transaction
validate_amount_for_kind _ m = refuse_if (not (is_positive m)) invalid_transaction

abbrev pub is_blank : String → Bool
is_blank s = str_eq s ""

-- The checks of `NewExternal`, in order.
unfoldable pub check_external : ExternalParams → Result (Unit {0})
check_external p = do
  refuse_if (not (is_external p.kind)) invalid_kind_for_operation
  refuse_if (is_nil p.id || (is_nil p.wallet_id || is_nil p.player_id)) invalid_transaction
  refuse_if
      (is_blank p.provider_id
        || (is_blank p.external_transaction_id
            || (is_blank p.idempotency_key || is_blank p.payload_hash)))
      invalid_transaction
  refuse_if (is_blank p.round_id || is_blank p.game_id) invalid_transaction
  refuse_if (requires_reference p.kind && is_blank p.reference_external_transaction_id)
      invalid_transaction
  refuse_if (not (may_carry_reference p.kind) && not (is_blank p.reference_external_transaction_id))
      invalid_transaction
  validate_amount_for_kind p.kind p.money

-- The transaction that `NewExternal` returns.
abbrev pub external_transaction : ExternalParams → Time → Transaction
external_transaction p at = record {
  id = p.id;
  provider_id = p.provider_id;
  external_transaction_id = p.external_transaction_id;
  idempotency_key = p.idempotency_key;
  payload_hash = p.payload_hash;
  wallet_id = p.wallet_id;
  player_id = p.player_id;
  round_id = p.round_id;
  game_id = p.game_id;
  kind = p.kind;
  money = p.money;
  reference_external_transaction_id = p.reference_external_transaction_id;
  resolved_reference_transaction_id = none;
  status = pending;
  failure_code = no_code;
  resulting_balance = none;
  created_at = at;
  updated_at = at;
}

unfoldable pub new_external : ExternalParams → Time → Result Transaction
new_external p at = do check_external p; ok (external_transaction p at)

-- The transaction that `NewOpening` returns.
abbrev pub opening_transaction : Uuid → Uuid → Uuid → Money → Time → Transaction
opening_transaction id wallet_id player_id amount at = record {
  id = id;
  provider_id = "";
  external_transaction_id = "";
  idempotency_key = "";
  payload_hash = "";
  wallet_id = wallet_id;
  player_id = player_id;
  round_id = "";
  game_id = "";
  kind = opening;
  money = amount;
  reference_external_transaction_id = "";
  resolved_reference_transaction_id = none;
  status = processed;
  failure_code = no_code;
  resulting_balance = some amount;
  created_at = at;
  updated_at = at;
}

unfoldable pub new_opening : Uuid → Uuid → Uuid → Money → Time → Result Transaction
new_opening id wallet_id player_id amount at = do
  refuse_if (is_nil id || (is_nil wallet_id || is_nil player_id)) invalid_transaction
  validate_amount_for_kind opening amount
  ok (opening_transaction id wallet_id player_id amount at)

-- `Rehydrate`; `RehydrateParams` has the fields of `Transaction`.
unfoldable pub rehydrate : Transaction → Result Transaction
rehydrate p = do
  refuse_if (is_nil p.id || (is_nil p.wallet_id || is_nil p.player_id)) invalid_transaction
  ok p

unfoldable pub attach_resolved_reference : Uuid → Transaction → Result Transaction
attach_resolved_reference id t = do
  refuse_if (is_terminal t.status) invalid_transition
  refuse_if (is_nil id) invalid_transaction
  ok (record t { resolved_reference_transaction_id = some id })

unfoldable pub mark_pending_reference : Time → Transaction → Result Transaction
mark_pending_reference at t = do
  refuse_if (not (status_eq t.status pending)) invalid_transition
  ok (record t { status = pending_reference; updated_at = at })

unfoldable pub mark_processed : Money → Time → Transaction → Result Transaction
mark_processed resulting_balance at t = do
  refuse_if (is_terminal t.status) invalid_transition
  ok (record t { status = processed; resulting_balance = some resulting_balance; updated_at = at })

unfoldable pub mark_rejected : FailureCode → Time → Transaction → Result Transaction
mark_rejected code at t = do
  refuse_if (is_terminal t.status) invalid_transition
  refuse_if (is_no_code code) invalid_transaction
  ok (record t { status = rejected; failure_code = code; updated_at = at })

unfoldable pub mark_failed : FailureCode → Time → Transaction → Result Transaction
mark_failed code at t = do
  refuse_if (is_terminal t.status) invalid_transition
  refuse_if (is_no_code code) invalid_transaction
  ok (record t { status = failed; failure_code = code; updated_at = at })
