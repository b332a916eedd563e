-- ===== src/Errors.antt =====
-- internal/domain/domainerr/domainerr.go and the sentinel errors of the other packages.
-- An error is modelled by the sentinel that `errors.Is` finds in it: `fmt.Errorf` with `%w` adds text
-- and keeps the sentinel. `database`, `invalid_request` and `infrastructure` stand for the errors that
-- wrap no sentinel of this program.
use wager_service.Base.{Bool, true, false}

pub data Error : Type 0 where
  -- domainerr
  invalid_argument conflict not_found invalid_transition : Error
  -- money
  empty_amount invalid_format negative_amount invalid_currency money_currency_mismatch overflow :
      Error
  -- wallet
  invalid_wallet wallet_currency_mismatch non_positive_amount insufficient_balance : Error
  -- wager
  invalid_transaction invalid_kind_for_operation : Error
  -- ledger, events, ports
  invalid_entry balance_mismatch invalid_envelope optimistic_lock : Error
  -- application
  idempotency_key_reused external_transaction_key_mismatch : Error
  -- no sentinel of this program
  database invalid_request infrastructure : Error

pub data Result {ℓ} (A : Type ℓ) : Type ℓ where
  ok : A → Result A
  err : Error → Result A

infixl 5 ◌>>=◌ ◌>>◌
-- `x, err := r; if err != nil { return err }`
abbrev pub ◌>>=◌ {ℓ κ} : {X : Type ℓ} {Y : Type κ} → Result X → (X → Result Y) → Result Y
err failure >>= next = err failure
ok x >>= next = next x

-- `if err := r; err != nil { return err }`
abbrev pub ◌>>◌ {κ} : {Y : Type κ} → Result (Unit {0}) → Result Y → Result Y
first >> rest = first >>= λ done. rest

-- `if b { return err }`
abbrev pub refuse_if : Bool → Error → Result (Unit {0})
refuse_if true e = err e
refuse_if false e = ok tt

-- `FailureCode`; `no_code` is the empty string.
pub data FailureCode : Type 0 where
  no_code insufficient_funds reversal_exceeds_balance reference_not_found : FailureCode
  reference_mismatch reference_not_processed duplicate_reversal invalid_transition_code :
      FailureCode

-- `code == ""`
abbrev pub is_no_code : FailureCode → Bool
is_no_code no_code = true
is_no_code _ = false
