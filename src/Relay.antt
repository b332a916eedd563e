-- ===== src/Relay.antt =====
-- internal/infra/rabbitmq/outbox_worker.go: one poll of the outbox, and how long the worker waits after it.
-- The publisher (`EventPublisher`) is a parameter.
pub mod Delivered
pub mod Drained
use wager_service.Base.{ℕ, ◌+◌, if◌then◌else◌, Option, none, some, List, [], ◌∷◌, length}
use wager_service.Base.Int.{ℤ, pos, leb_ℤ, eqb_ℤ}
use wager_service.Ids.{Time, second, minute}
use wager_service.Errors.{Error, Result, ok, err}
use wager_service.Ports.{M, Ports, OutboxRecord, pure, attempt, ◌>>=◌, ◌>>◌}
use wager_service.Backoff.{BackoffPolicy, next_attempt}

-- The two settings that `NewOutboxWorker` corrects.
abbrev pub batch_size_or_default : ℤ → ℤ
batch_size_or_default n = if leb_ℤ n (pos 0) then pos 100 else n

abbrev pub poll_interval_or_default : ℤ → ℤ
poll_interval_or_default d = if leb_ℤ d (pos 0) then pos second else d

-- How long `Run` waits after a poll, by what the poll returned.
abbrev pub wait_after : ℤ → ℤ → ℕ × Option Error → ℤ
wait_after batch_size poll_interval (n, some e) = poll_interval
wait_after batch_size poll_interval (n, none) =
    if eqb_ℤ (pos n) batch_size then pos 0 else poll_interval

abbrev error_of : Result (Unit {0}) → Option Error
error_of (ok u) = none
error_of (err e) = some e

module _ {S : Type 0} (P : Ports S) (publish : OutboxRecord → M S (Unit {0}))
    (backoff : BackoffPolicy) where
  -- what becomes of a record, by what `Publish` returned
  unfoldable pub settle : OutboxRecord → Time → Result (Unit {0}) → M S (Unit {0})
  settle rec now (ok _) = P.outbox.mark_published rec.event_id now
  settle rec now (err e) =
      P.outbox.schedule_retry rec.event_id (rec.attempts + 1)
        (next_attempt backoff now (rec.attempts + 1))

  -- the loop of `RunOnce`
  unfoldable pub relay : List OutboxRecord → Time → M S (Unit {0})
  unfolding settle
  relay [] now = pure tt
  relay (rec ∷ records) now = do r ← attempt (publish rec); settle rec now r; relay records now

  -- `RunOnce`: the number of records, beside an error if there is one
  unfoldable pub run_once : Time → ℤ → S → (ℕ × Option Error) × S
  run_once now batch_size s =
      let (claimed, s') = P.outbox.claim_pending now batch_size s in
      elim claimed [
        | err e ↦ ((0, some e), s')
        | ok records ↦ let (r, s'') = relay records now s' in ((length records, error_of r), s'')
      ]
