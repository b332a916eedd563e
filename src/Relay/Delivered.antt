-- ===== src/Relay/Delivered.antt =====
-- internal/infra/rabbitmq/outbox_worker.go on internal/infra/postgres/outbox_repository.go: which events a
-- poll marks as published.
use wager_service.Base.{
  arith, ℕ, ◌+◌, ◌≡◌, refl, Bool, ◌&&◌, ◌||◌, some, List, [], ◌∷◌, ◌==◌, find, any, find-update,
  find-test, keep, sort_by, if◌then◌else◌,
}
use wager_service.Base.Int.{ℤ, pos, negsuc}
use wager_service.Ids.{Uuid, Time}
use wager_service.Errors.{Result, ok, err, infrastructure}
use wager_service.Ports.{M, OutboxRecord, pure, ◌>>=◌}
use wager_service.Postgres.{postgres}
use wager_service.Postgres.Database.{Db, World, limited, to_micros}
use wager_service.Postgres.Outbox
use wager_service.Backoff.{BackoffPolicy, next_attempt}
use wager_service.Relay.{settle, relay, run_once}

-- A publisher: it takes or refuses a record, and leaves the database alone.
abbrev pub publisher : (OutboxRecord → Bool) → OutboxRecord → M World (Unit {0})
publisher takes rec w = (if takes rec then ok tt else err infrastructure, w)

-- The event `id` is among the records, and a record of it is taken.
abbrev pub is_taken : (OutboxRecord → Bool) → Uuid → OutboxRecord → Bool
is_taken takes id rec = (rec.event_id == id) && takes rec

-- the records that a query answers with; a negative limit is an error
abbrev pub answered : Result (List OutboxRecord) → List OutboxRecord
answered (ok records) = records
answered (err e) = []

-- The records that a poll claims.
abbrev pub claimed : Time → ℤ → Db → List OutboxRecord
claimed now n db =
    answered (limited n (sort_by Outbox.is_before (keep (Outbox.is_claimable now) db.outbox)))

-- What a poll makes of the row of an event.
pub record Settled (r : OutboxRecord) (sent : Bool) (now : Time) (r' : OutboxRecord) : Type 0 where
  pub event : r'.event_id ≡ r.event_id
  pub envelope : r'.envelope ≡ r.envelope
  pub published : r'.published_at ≡ (if sent then some (to_micros now) else r.published_at)

module _ (v7 : ℕ → Uuid) (takes : OutboxRecord → Bool) (backoff : BackoffPolicy) (now : Time) where
  -- the world after one record
  abbrev pub after : OutboxRecord → World → World
  after rec w =
      (settle (postgres v7) (publisher takes) backoff rec now (publisher takes rec w).0 w).1

  pub relay-step :
      (rec : OutboxRecord) (records : List OutboxRecord) (w : World)
      → relay (postgres v7) (publisher takes) backoff (rec ∷ records) now w
        ≡ relay (postgres v7) (publisher takes) backoff records now (after rec w)
  unfolding relay settle ◌>>=◌ Outbox.mark_published Outbox.schedule_retry
  relay-step rec records w = ground arith

  pub run_once-relay :
      (n : ℤ) (w : World)
      → (run_once (postgres v7) (publisher takes) backoff now n w).1
        ≡ (relay (postgres v7) (publisher takes) backoff (claimed now n w.db) now w).1
  unfolding run_once relay pure Outbox.claim_pending
  run_once-relay (pos n) w = refl
  run_once-relay (negsuc n) w = refl

module _ (v7 : ℕ → Uuid) (takes : OutboxRecord → Bool) (backoff : BackoffPolicy) (now : Time)
    (id : Uuid) where
  -- the row of `id` after one record
  abbrev settled_by : OutboxRecord → OutboxRecord → OutboxRecord
  settled_by rec r =
      if rec.event_id == id
      then if takes rec
        then Outbox.publish_at now r
        else Outbox.retry_at (rec.attempts + 1) (next_attempt backoff now (rec.attempts + 1)) r
      else r

  found_step :
      (rec r : OutboxRecord) (w : World)
      → find (Outbox.has_event_id id) w.db.outbox ≡ some r
      → find
          (Outbox.has_event_id id)
          (settle
            (postgres v7)
            (publisher takes)
            backoff
            rec
            now
            (publisher takes rec w).0
            w).1.db.outbox
        ≡ some (settled_by rec r)
  unfolding settle Outbox.mark_published Outbox.schedule_retry
  found_step rec r w h = ground (
    arith,
    find-test (Outbox.has_event_id id) w.db.outbox r h,
    find-update (Outbox.has_event_id id) (Outbox.has_event_id rec.event_id) (Outbox.publish_at now)
        (λ x. refl) w.db.outbox,
    find-update (Outbox.has_event_id id) (Outbox.has_event_id rec.event_id)
        (Outbox.retry_at (rec.attempts + 1) (next_attempt backoff now (rec.attempts + 1)))
        (λ x. refl) w.db.outbox,
  )

  then-Settled :
      (rec r r' : OutboxRecord) (rest : Bool)
      → Settled (settled_by rec r) rest now r'
      → Settled r (is_taken takes id rec || rest) now r'
  then-Settled rec r r' rest s = record {
    event = ground (arith, s.event);
    envelope = ground (arith, s.envelope);
    published = ground (arith, s.published);
  }

  -- What the loop makes of the row of an event.
  abbrev Outcome : List OutboxRecord → OutboxRecord → World → Type 0
  Outcome records r w =
      (r' : OutboxRecord) × (find (Outbox.has_event_id id)
          (relay (postgres v7) (publisher takes) backoff records now w).1.db.outbox
        ≡ some r')
      × Settled r (any (is_taken takes id) records) now r'

  relayed-nil :
      (r : OutboxRecord) (w : World)
      → find (Outbox.has_event_id id) w.db.outbox ≡ some r
      → Outcome [] r w
  unfolding relay any pure
  relayed-nil r w h = (r, h, record { event = refl; envelope = refl; published = refl })

  relayed-cons :
      (rec r : OutboxRecord) (records : List OutboxRecord) (w : World)
      → Outcome records (settled_by rec r) (after v7 takes backoff now rec w)
      → Outcome (rec ∷ records) r w
  unfolding any
  relayed-cons rec r records w (r', found, settled) = (
    r',
    rw (relay-step v7 takes backoff now rec records w) found,
    then-Settled rec r r' (any (is_taken takes id) records) settled,
  )

  relayed :
      (records : List OutboxRecord) (r : OutboxRecord) (w : World)
      → find (Outbox.has_event_id id) w.db.outbox ≡ some r
      → Outcome records r w
  relayed [] r w h = relayed-nil r w h
  relayed (rec ∷ records) r w h =
      relayed-cons rec r records w (
        relayed records (settled_by rec r) (after v7 takes backoff now rec w)
          (found_step rec r w h))

  -- One poll of the outbox, with a publisher that takes some records and refuses others: an event in the
  -- outbox stays there with its envelope; its time of publication becomes that of the poll, to the microsecond, if the poll claimed
  -- a record of the event that the publisher took, and is otherwise what it was.
  pub run_once-Settled :
      (n : ℤ) (r : OutboxRecord) (w : World)
      → find (Outbox.has_event_id id) w.db.outbox ≡ some r
      → (r' : OutboxRecord) × (find
            (Outbox.has_event_id id)
            (run_once (postgres v7) (publisher takes) backoff now n w).1.db.outbox
          ≡ some r')
        × Settled r (any (is_taken takes id) (claimed now n w.db)) now r'
  run_once-Settled n r w h =
      rw (run_once-relay v7 takes backoff now n w) (relayed (claimed now n w.db) r w h)
