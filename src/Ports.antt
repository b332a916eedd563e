-- ===== src/Ports.antt =====
-- internal/ports/ports.go: the interfaces that the use cases are written against, as a record of
-- operations over a state. A call returns a value or an error, and the state that it leaves.
use wager_service.Base.{ℕ, String, Option, none, some, List}
use wager_service.Base.Int.{ℤ}
use wager_service.Ids.{Uuid, Time}
use wager_service.Errors.{Error, Result, ok, err, not_found}
use wager_service.Wallet.{Wallet}
use wager_service.Wager.{Transaction, Kind}
use wager_service.Ledger.{Entry}
use wager_service.Events.{Envelope, EventType}

abbrev pub M : Type 0 → Type 0 → Type 0
M S A = S → Result A × S

-- `if err != nil && !errors.Is(err, ErrNotFound) { return err }`: what is not found is nil
abbrev pub nil_if_missing : {A : Type 0} → Result A → Result (Option A)
nil_if_missing (ok a) = ok (some a)
nil_if_missing (err not_found) = ok none
nil_if_missing (err e) = err e

module _ {S A : Type 0} where
  unfoldable pub pure : A → M S A
  pure a s = (ok a, s)

  unfoldable pub fail : Error → M S A
  fail e s = (err e, s)

  -- a call that touches no state
  unfoldable pub lift : Result A → M S A
  lift r s = (r, s)

  unfoldable pub or_nil : M S A → M S (Option A)
  or_nil m s = let (r, s') = m s in (nil_if_missing r, s')

-- A call whose error the caller looks at.
unfoldable pub attempt : {S A : Type 0} → M S A → M S (Result A)
attempt m s = let (r, s') = m s in (ok r, s')

abbrev pub continue : {S A B : Type 0} → Result A → (A → M S B) → M S B
continue (ok a) f s = f a s
continue (err e) f s = (err e, s)

infixl 5 ◌>>=◌ ◌>>◌
-- `x, err := m; if err != nil { return err }`
unfoldable pub ◌>>=◌ : {S A B : Type 0} → M S A → (A → M S B) → M S B
unfolding pure fail lift or_nil attempt
◌>>=◌ m f s = let (r, s') = m s in continue r f s'

abbrev pub ◌>>◌ : {S B : Type 0} → M S (Unit {0}) → M S B → M S B
m >> k = m >>= λ _. k

pub record InboxRecord : Type 0 where
  pub consumer_name : String
  pub message_id : String
  pub payload_hash : String
  pub received_at : Time
  pub completed_at : Option Time

pub record OutboxRecord : Type 0 where
  pub event_id : Uuid
  pub aggregate_id : Uuid
  pub event_type : EventType
  pub envelope : Envelope
  pub occurred_at : Time
  pub attempts : ℕ
  pub next_attempt : Time
  pub published_at : Option Time

pub record LedgerSum : Type 0 where
  pub minor_units : ℤ
  pub currency : String
  pub count : ℕ

pub record WalletRepository (S : Type 0) : Type 0 where
  pub find_by_id : Uuid → M S Wallet
  pub find_by_player_and_currency : Uuid → String → M S Wallet
  pub find_by_id_for_update : Uuid → M S Wallet
  pub create : Wallet → M S (Unit {0})
  pub save : Wallet → ℤ → M S (Unit {0})

pub record WagerTransactionRepository (S : Type 0) : Type 0 where
  pub find_by_id : Uuid → M S Transaction
  pub find_by_provider_and_external_id : String → String → M S Transaction
  pub find_by_idempotency_key : String → String → M S Transaction
  pub create : Transaction → M S (Unit {0})
  pub save : Transaction → M S (Unit {0})
  pub list_pending_reference_due : Time → ℤ → M S (List Transaction)
  pub record_pending_reference_attempt : Uuid → ℕ → Time → M S (Unit {0})
  pub count_successful_reversals : Uuid → Kind → M S ℕ

pub record LedgerRepository (S : Type 0) : Type 0 where
  pub append : Entry → M S (Unit {0})
  pub sum_by_wallet : Uuid → M S LedgerSum

pub record InboxRepository (S : Type 0) : Type 0 where
  pub find : String → String → M S InboxRecord
  pub insert : InboxRecord → M S (Unit {0})
  pub mark_completed : String → String → Time → M S (Unit {0})

pub record OutboxRepository (S : Type 0) : Type 0 where
  pub append : OutboxRecord → M S (Unit {0})
  pub claim_pending : Time → ℤ → M S (List OutboxRecord)
  pub mark_published : Uuid → Time → M S (Unit {0})
  pub schedule_retry : Uuid → ℕ → Time → M S (Unit {0})

-- What a use case is built from: the transaction manager, `uuid.NewV7` and the repositories.
pub record Ports (S : Type 0) : Type 1 where
  pub within_tx : {A : Type 0} → M S A → M S A
  pub new_v7 : M S Uuid
  pub wallets : WalletRepository S
  pub txs : WagerTransactionRepository S
  pub ledgers : LedgerRepository S
  pub inbox : InboxRepository S
  pub outbox : OutboxRepository S
