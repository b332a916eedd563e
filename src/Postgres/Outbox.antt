-- ===== src/Postgres/Outbox.antt =====
-- internal/infra/postgres/outbox_repository.go over the table of migrations/0005_outbox.up.sql. An
-- envelope is stored as JSON and read back to the same envelope.
use wager_service.Base.{
  ℕ, Bool, true, false, ◌&&◌, ◌||◌, Option, none, some, List, [], ◌∷◌, ◌++◌, ◌==◌, ltb, leb, keep,
  update, any, sort_by, if◌then◌else◌,
}
use wager_service.Base.Int.{ℤ}
use wager_service.Ids.{Uuid, Time, zero_time}
use wager_service.Errors.{ok, err, database}
use wager_service.Ports.{M, OutboxRecord, OutboxRepository}
use wager_service.Postgres.Database.{World, limited, to_micros, to_micros_or_null}

abbrev pub has_event_id : Uuid → OutboxRecord → Bool
has_event_id id r = r.event_id == id

abbrev with_outbox : List OutboxRecord → World → World
with_outbox rows w = record w { db = record w.db { outbox = rows } }

-- `if nextAttempt.IsZero() { nextAttempt = rec.OccurredAt }`
abbrev pub stored : OutboxRecord → OutboxRecord
stored rec = record rec {
  occurred_at = to_micros rec.occurred_at;
  next_attempt =
      to_micros (if rec.next_attempt == zero_time then rec.occurred_at else rec.next_attempt);
  published_at = to_micros_or_null rec.published_at;
}

unfoldable pub append : OutboxRecord → M World (Unit {0})
append rec w =
    if any (has_event_id rec.event_id) w.db.outbox
    then (err database, w)
    else (ok tt, with_outbox (w.db.outbox ++ stored rec ∷ []) w)

abbrev is_unpublished : Option Time → Bool
is_unpublished none = true
is_unpublished (some t) = false

abbrev pub is_claimable : Time → OutboxRecord → Bool
is_claimable now r = is_unpublished r.published_at && leb r.next_attempt now

-- `ORDER BY next_attempt, event_id`
abbrev pub is_before : OutboxRecord → OutboxRecord → Bool
is_before r r' =
    ltb r.next_attempt r'.next_attempt
    || r.next_attempt == r'.next_attempt && leb r.event_id r'.event_id

unfoldable pub claim_pending : Time → ℤ → M World (List OutboxRecord)
claim_pending now n w = (limited n (sort_by is_before (keep (is_claimable now) w.db.outbox)), w)

abbrev pub publish_at : Time → OutboxRecord → OutboxRecord
publish_at at r = record r { published_at = some (to_micros at) }

unfoldable pub mark_published : Uuid → Time → M World (Unit {0})
mark_published id at w =
    (ok tt, with_outbox (update (has_event_id id) (publish_at at) w.db.outbox) w)

abbrev pub retry_at : ℕ → Time → OutboxRecord → OutboxRecord
retry_at attempts next_attempt r = record r {
  attempts = attempts;
  next_attempt = to_micros next_attempt;
}

unfoldable pub schedule_retry : Uuid → ℕ → Time → M World (Unit {0})
schedule_retry id attempts next_attempt w =
    (ok tt, with_outbox (update (has_event_id id) (retry_at attempts next_attempt) w.db.outbox) w)

abbrev pub repository : OutboxRepository World
repository = record {
  append = append;
  claim_pending = claim_pending;
  mark_published = mark_published;
  schedule_retry = schedule_retry;
}
