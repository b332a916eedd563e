-- ===== src/Invariants/Submit.antt =====
-- internal/application/process_wager_transaction.go: `Execute` and an invariant of the database.
use wager_service.Base.{ℕ, String, Option, none, some}
use wager_service.Ids.{Uuid, Time}
use wager_service.Errors.{Result, ok, err, conflict}
use wager_service.Money.Arithmetic.{Fits}
use wager_service.Wager.{Transaction}
use wager_service.Ports.{InboxRecord, lift, ◌>>=◌}
use wager_service.Postgres.{postgres}
use wager_service.Postgres.Database.{Db, World}
use wager_service.Process.{
  replay, replay_concurrent, created, start, replay_or_start, process_idempotently,
  replay_by_idempotency_key, handle_found, handle_inbox, replay_completed, process_and_complete,
  execute_body, execute,
}
use wager_service.Process.Request.{Command, InboxDedup, ProcessResult, CanonicalPayload}
use wager_service.Invariants.Triple.{
  Keeps-attempt, Leads, Leads-fail, Leads-if, Keeps-pure, Keeps-lift, keeps_rules, within_tx-keeps,
}
use wager_service.Invariants.Stable.{Stable, draw-Reads}
use wager_service.Invariants.Reads.{
  find_external-Reads, find_key-Reads, find_record-Reads, create-FailsClean,
}
use wager_service.Invariants.Dispatch.{dispatch-Keeps}

module _ (v7 : ℕ → Uuid) {I : Db → Type 0} (stable : Stable I) where
  replay-Keeps : (hash : String) (tx : Transaction) → Leads I (replay (postgres v7) hash tx) I
  unfolding replay
  replay-Keeps hash tx = search keeps_rules

  replay_concurrent-Keeps :
      (hash : String) (r : Result Transaction) → Leads I (replay_concurrent (postgres v7) hash r) I
  unfolding replay_concurrent
  replay_concurrent-Keeps hash (ok tx) = replay-Keeps hash tx
  replay_concurrent-Keeps hash (err e) = Leads-fail _

  created-Keeps :
      (cmd : Command) (hash : String) (tx : Transaction) (r : Result (Unit {0}))
      → Fits cmd.amount
      → Leads I (created (postgres v7) cmd hash tx r) I
  unfolding created
  created-Keeps cmd hash tx (ok u) fits = dispatch-Keeps v7 stable tx cmd cmd.kind fits
  created-Keeps cmd hash tx (err conflict) fits =
      search (keeps_rules, find_key-Reads, replay_concurrent-Keeps)
  created-Keeps cmd hash tx (err _) fits = Leads-fail _

  start-Keeps :
      (cmd : Command) (hash : String) → Fits cmd.amount → Leads I (start (postgres v7) cmd hash) I
  unfolding start
  start-Keeps cmd hash fits = search (
    keeps_rules, draw-Reads, Keeps-lift, Keeps-attempt, create-FailsClean, stable.records.tx_create,
    created-Keeps,
  )

  replay_or_start-Keeps :
      (cmd : Command) (hash : String) (o : Option Transaction)
      → Fits cmd.amount
      → Leads I (replay_or_start (postgres v7) cmd hash o) I
  unfolding replay_or_start
  replay_or_start-Keeps cmd hash (some tx) fits = replay-Keeps hash tx
  replay_or_start-Keeps cmd hash none fits = start-Keeps cmd hash fits

  process_idempotently-Keeps :
      (cmd : Command) (hash : String)
      → Fits cmd.amount
      → Leads I (process_idempotently (postgres v7) cmd hash) I
  unfolding process_idempotently
  process_idempotently-Keeps cmd hash fits =
      search (keeps_rules, find_external-Reads, find_key-Reads, replay_or_start-Keeps) depth 9

  replay_by_idempotency_key-Keeps :
      (p k : String) → Leads I (replay_by_idempotency_key (postgres v7) p k) I
  unfolding replay_by_idempotency_key
  replay_by_idempotency_key-Keeps p k = search (keeps_rules, find_key-Reads)

  replay_completed-Keeps :
      (cmd : Command) (o : Option Time) → Leads I (replay_completed (postgres v7) cmd o) I
  unfolding replay_completed
  replay_completed-Keeps cmd none = Keeps-pure none
  replay_completed-Keeps cmd (some t) = search (keeps_rules, replay_by_idempotency_key-Keeps)

  handle_found-Keeps :
      (cmd : Command) (dedup : InboxDedup) (hash : String) (o : Option InboxRecord)
      → Leads I (handle_found (postgres v7) cmd dedup hash o) I
  unfolding handle_found
  handle_found-Keeps cmd dedup hash none = search (keeps_rules, stable.records.inbox_insert)
  handle_found-Keeps cmd dedup hash (some rec) =
      Leads-if _ _ _ (Leads-fail _) (replay_completed-Keeps cmd rec.completed_at)

  handle_inbox-Keeps :
      (cmd : Command) (dedup : InboxDedup) (hash : String)
      → Leads I (handle_inbox (postgres v7) cmd dedup hash) I
  unfolding handle_inbox
  handle_inbox-Keeps cmd dedup hash = search (keeps_rules, find_record-Reads, handle_found-Keeps)

  process_and_complete-Keeps :
      (cmd : Command) (dedup : InboxDedup) (hash : String) (o : Option ProcessResult)
      → Fits cmd.amount
      → Leads I (process_and_complete (postgres v7) cmd dedup hash o) I
  unfolding process_and_complete
  process_and_complete-Keeps cmd dedup hash (some r) fits = Keeps-pure r
  process_and_complete-Keeps cmd dedup hash none fits =
      search (keeps_rules, process_idempotently-Keeps, stable.records.inbox_complete)

  execute_body-Keeps :
      (cmd : Command) (hash : String) (o : Option InboxDedup)
      → Fits cmd.amount
      → Leads I (execute_body (postgres v7) cmd hash o) I
  unfolding execute_body
  execute_body-Keeps cmd hash none fits = process_idempotently-Keeps cmd hash fits
  execute_body-Keeps cmd hash (some dedup) fits =
      search (keeps_rules, handle_inbox-Keeps, process_and_complete-Keeps)

  hashed-keeps :
      (cmd : Command) (r : Result String) (w : World)
      → Fits cmd.amount
      → I w.db
      → I
          (((lift r) >>= λ hash.
              (postgres v7).within_tx (execute_body (postgres v7) cmd hash cmd.inbox))
            w).1.db
  unfolding ◌>>=◌
  hashed-keeps cmd (ok hash) w fits h =
      within_tx-keeps _ (execute_body-Keeps cmd hash cmd.inbox fits) w h
  hashed-keeps cmd (err e) w fits h = h

  -- Whatever `Execute` returns, what it leaves committed has the invariant.
  pub execute-keeps :
      (canonical_hash : CanonicalPayload → Result String) (cmd : Command) (w : World)
      → Fits cmd.amount
      → I w.db
      → I (execute (postgres v7) canonical_hash cmd w).1.db
  unfolding execute
  execute-keeps canonical_hash cmd w fits h = hashed-keeps cmd (canonical_hash _) w fits h
