-- ===== src/Invariants/Money.antt =====
-- internal/application/process_wager_transaction.go: `Execute`, its idempotent and inbox paths included,
-- and what its answer says of the money.
use wager_service.Base.{ℕ, ◌≡◌, refl, subst, String, Option, none, some, List, inl}
use wager_service.Ids.{Uuid, Time}
use wager_service.Errors.{Result, ok, err, conflict}
use wager_service.Money.Arithmetic.{Fits}
use wager_service.Wallet.{Wallet}
use wager_service.Wager.{Transaction}
use wager_service.Ports.{InboxRecord, pure, ◌>>=◌}
use wager_service.Postgres.{postgres}
use wager_service.Postgres.Database.{Db, World, LedgerRow}
use wager_service.Postgres.Inbox
use wager_service.Process.{
  replay, replay_concurrent, created, start, replay_or_start, process_idempotently,
  replay_by_idempotency_key, handle_found, handle_inbox, replay_completed, process_and_complete,
  execute_body, execute,
}
use wager_service.Process.Request.{
  Command, InboxDedup, ProcessResult, CanonicalPayload, canonical_payload_from,
}
use wager_service.Invariants.Triple.{Keeps-read, Keeps-attempt, Reads-or_nil, Reads-attempt}
use wager_service.Invariants.Stable.{draw-Reads}
use wager_service.Invariants.Reads.{
  find_external-Reads, find_key-Reads, find_record-Reads, create-FailsClean,
}
use wager_service.Invariants.Gives.{
  Gives, Answers, Gives-fail, Gives-pure, Gives-if, Gives-bind, Gives-then, Gives-lift,
  within_tx-Gives,
}
use wager_service.Invariants.Effect.{Effect, IsStill, Same, Still, Still-Records}
use wager_service.Invariants.Answer.{dispatch-Gives}

module _ (v7 : ℕ → Uuid) (wallets₀ : List Wallet) (ledger₀ : List LedgerRow) (cmd : Command)
    (fits : Fits cmd.amount) where
  abbrev I : Db → Type 0
  I = Still v7 wallets₀ ledger₀ cmd

  abbrev Q : ProcessResult → Db → Type 0
  Q = Effect wallets₀ ledger₀ cmd

  -- an answer without a movement
  abbrev Quiet : ProcessResult → Db → Type 0
  Quiet r db = IsStill cmd r × Same wallets₀ ledger₀ db.wallets db.ledger

  replay-Gives : (hash : String) (tx : Transaction) → Gives I (replay (postgres v7) hash tx) Q
  unfolding replay
  replay-Gives hash tx =
      Gives-if _ _ _ (Gives-fail _) (Gives-pure _ (λ db same. inl (inl refl, same)))

  replay_concurrent-Gives :
      (hash : String) (r : Result Transaction) → Gives I (replay_concurrent (postgres v7) hash r) Q
  unfolding replay_concurrent
  replay_concurrent-Gives hash (ok tx) = replay-Gives hash tx
  replay_concurrent-Gives hash (err e) = Gives-fail _

  created-Gives :
      (hash : String) (tx : Transaction) (r : Result (Unit {0}))
      → Gives I (created (postgres v7) cmd hash tx r) Q
  unfolding created
  created-Gives hash tx (ok u) = dispatch-Gives v7 wallets₀ ledger₀ cmd fits tx cmd.kind refl
  created-Gives hash tx (err conflict) =
      Gives-bind _ _ (Keeps-read _ (Reads-attempt _ (find_key-Reads _ _)))
        λ r. replay_concurrent-Gives hash r
  created-Gives hash tx (err _) = Gives-fail _

  start-Gives : (hash : String) → Gives I (start (postgres v7) cmd hash) Q
  unfolding start
  start-Gives hash = Gives-bind _ _ (Keeps-read _ (draw-Reads v7)) λ id. Gives-lift _ _ λ tx _.
      Gives-bind _ _
        (Keeps-attempt _ (create-FailsClean tx)
          ((Still-Records v7 wallets₀ ledger₀ cmd).tx_create tx))
        λ r. created-Gives hash tx r

  replay_or_start-Gives :
      (hash : String) (o : Option Transaction)
      → Gives I (replay_or_start (postgres v7) cmd hash o) Q
  unfolding replay_or_start
  replay_or_start-Gives hash (some tx) = replay-Gives hash tx
  replay_or_start-Gives hash none = start-Gives hash

  process_idempotently-Gives :
      (hash : String) → Gives I (process_idempotently (postgres v7) cmd hash) Q
  unfolding process_idempotently
  process_idempotently-Gives hash =
      Gives-bind _ _ (Keeps-read _ (Reads-or_nil _ (find_external-Reads _ _))) λ by_external.
        Gives-if _ _ _ (Gives-fail _) (
          Gives-bind _ _ (Keeps-read _ (Reads-or_nil _ (find_key-Reads _ _)))
            λ by_key. replay_or_start-Gives hash by_key)

  -- what the inbox decides: to go on, or an answer
  abbrev Handled : Option ProcessResult → Db → Type 0
  Handled none db = I db
  Handled (some r) db = Quiet r db

  replay_completed-Gives :
      (o : Option Time) → Gives I (replay_completed (postgres v7) cmd o) Handled
  unfolding replay_completed replay_by_idempotency_key
  replay_completed-Gives none = Gives-pure none (λ db same. same)
  replay_completed-Gives (some t) =
      Gives-then {R = Quiet} _ _
        (Gives-bind _ _ (Keeps-read _ (find_key-Reads _ _))
          λ tx. Gives-pure _ (λ db same. (inl refl, same)))
        λ r. Gives-pure (some r) (λ db quiet. quiet)

  handle_found-Gives :
      (dedup : InboxDedup) (hash : String) (o : Option InboxRecord)
      → Gives I (handle_found (postgres v7) cmd dedup hash o) Handled
  unfolding handle_found
  handle_found-Gives dedup hash none =
      Gives-bind _ _ ((Still-Records v7 wallets₀ ledger₀ cmd).inbox_insert _)
        λ _. Gives-pure none (λ db same. same)
  handle_found-Gives dedup hash (some rec) =
      Gives-if _ _ _ (Gives-fail _) (replay_completed-Gives rec.completed_at)

  handle_inbox-Gives :
      (dedup : InboxDedup) (hash : String)
      → Gives I (handle_inbox (postgres v7) cmd dedup hash) Handled
  unfolding handle_inbox
  handle_inbox-Gives dedup hash =
      Gives-bind _ _ (Keeps-read _ (Reads-or_nil _ (find_record-Reads _ _)))
        λ o. handle_found-Gives dedup hash o

  -- marking the message touches neither table
  mark-Gives :
      (r : ProcessResult) (c m : String) (at : Time)
      → Gives (Q r) (Inbox.mark_completed c m at >>= λ _. pure r) Q
  unfolding Inbox.mark_completed ◌>>=◌
  mark-Gives r c m at = record { at = λ w h. h }

  process_and_complete-Gives :
      (dedup : InboxDedup) (hash : String) (o : Option ProcessResult)
      → Gives (Handled o) (process_and_complete (postgres v7) cmd dedup hash o) Q
  unfolding process_and_complete
  process_and_complete-Gives dedup hash (some r) = Gives-pure r (λ db quiet. inl quiet)
  process_and_complete-Gives dedup hash none =
      Gives-then _ _ (process_idempotently-Gives hash) λ r. mark-Gives r _ _ _

  execute_body-Gives :
      (hash : String) (o : Option InboxDedup) → Gives I (execute_body (postgres v7) cmd hash o) Q
  unfolding execute_body
  execute_body-Gives hash none = process_idempotently-Gives hash
  execute_body-Gives hash (some dedup) =
      Gives-then _ _ (handle_inbox-Gives dedup hash) λ o. process_and_complete-Gives dedup hash o

  executed-Gives :
      (canonical_hash : CanonicalPayload → Result String)
      → Gives I (execute (postgres v7) canonical_hash cmd) Q
  unfolding execute
  executed-Gives canonical_hash =
      Gives-lift (canonical_hash (canonical_payload_from cmd)) _
        λ hash _. within_tx-Gives _ (execute_body-Gives hash cmd.inbox)

-- A command that `Execute` answers without an error, in any database: either neither a wallet nor the
-- ledger changed, and the answer is a replay, a rejection, a parked reversal or that of a loss; or the
-- answer says PROCESSED for the first time, and exactly one movement of the command's amount was made on
-- the wallet that it names, by `Debit` for a bet and by `Credit` for a win or a refund, with one entry
-- at the end of the ledger and one UPDATE of that wallet's row. The amount is an `int64`.
pub execute-Effect :
    (v7 : ℕ → Uuid) (canonical_hash : CanonicalPayload → Result String) (cmd : Command)
    (w w' : World) (r : ProcessResult)
    → Fits cmd.amount
    → execute (postgres v7) canonical_hash cmd w ≡ (ok r, w')
    → Effect w.db.wallets w.db.ledger cmd r w'.db
execute-Effect v7 canonical_hash cmd w w' r fits e =
    subst (Answers (Effect w.db.wallets w.db.ledger cmd)) e
      ((executed-Gives v7 w.db.wallets w.db.ledger cmd fits canonical_hash).at w (refl, refl))
