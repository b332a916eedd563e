-- ===== src/Relay/Drained.antt =====
-- internal/infra/rabbitmq/outbox_worker.go on internal/infra/postgres/outbox_repository.go: repeated polls of
-- the outbox.
use wager_service.Base.{
  arith, ℕ, zero, suc, ◌≤◌, ◌≡◌, refl, sym, ap, ◌∙◌, subst, Bool, true, ◌&&◌, List, [], ◌∷◌, All,
  length, take, keep, update, any, insert_by, sort_by, Bool-cases, inl, inr,
}
use wager_service.Base.Int.{pos}
use wager_service.Base.Sorting.{All-sort}
use wager_service.Ids.{Uuid, Time}
use wager_service.Ports.{OutboxRecord, pure}
use wager_service.Postgres.{postgres}
use wager_service.Postgres.Database.{World}
use wager_service.Postgres.Outbox
use wager_service.Backoff.{BackoffPolicy}
use wager_service.Relay.{settle, relay, run_once}
use wager_service.Relay.Delivered.{publisher, claimed, after, relay-step, run_once-relay}

module _ (now : Time) where
  -- the records that wait to be published at that time
  abbrev pub due_records : List OutboxRecord → List OutboxRecord
  due_records rows = keep (Outbox.is_claimable now) rows

  -- a waiting row of that event
  abbrev is_row : Uuid → OutboxRecord → Bool
  is_row id r = Outbox.has_event_id id r && Outbox.is_claimable now r

  abbrev published : Uuid → List OutboxRecord → List OutboxRecord
  published id rows = update (Outbox.has_event_id id) (Outbox.publish_at now) rows

  length-published :
      (id : Uuid) (rows : List OutboxRecord)
      → length (due_records (published id rows)) ≤ length (due_records rows)
  unfolding keep update
  length-published id [] = omega arith
  length-published id (r ∷ rows) = ground (arith, length-published id rows)

  length-fewer :
      (id : Uuid) (rows : List OutboxRecord)
      → any (is_row id) rows ≡ true
      → suc (length (due_records (published id rows))) ≤ length (due_records rows)
  unfolding keep update any
  length-fewer id [] h = cc
  length-fewer id (r ∷ rows) h = ground (arith, length-fewer id rows, length-published id rows)

  -- what waits is a row of its event
  due-rows :
      (all rows : List OutboxRecord)
      → ((id : Uuid) → any (is_row id) rows ≡ true → any (is_row id) all ≡ true)
      → All (λ r. any (is_row r.event_id) all ≡ true) (due_records rows)
  unfolding keep any
  due-rows all [] k = tt
  due-rows all (r ∷ rows) k =
      let rest = due-rows all rows (λ id h. k id (ground (arith, h))) in
      elim (Bool-cases (Outbox.is_claimable now r)) [
        | inl e ↦ rw e (k r.event_id (ground (arith, e)), rest)
        | inr e ↦ rw e rest
      ]

length-insert :
    (r : OutboxRecord) (rows : List OutboxRecord)
    → length (insert_by Outbox.is_before r rows) ≡ suc (length rows)
unfolding insert_by
length-insert r [] = refl
length-insert r (x ∷ rows) = ground (arith, length-insert r rows)

length-sort : (rows : List OutboxRecord) → length (sort_by Outbox.is_before rows) ≡ length rows
unfolding sort_by
length-sort [] = refl
length-sort (r ∷ rows) =
    ground (arith, length-insert r (sort_by Outbox.is_before rows), length-sort rows)

-- the first record of a batch
record First (P : OutboxRecord → Type 0) (batch : List OutboxRecord) : Type 0 where
  first : OutboxRecord
  rest : List OutboxRecord
  shape : batch ≡ first ∷ rest
  holds : P first

front :
    (P : OutboxRecord → Type 0) (m : ℕ) (rows : List OutboxRecord)
    → All P rows
    → 1 ≤ length rows
    → First P (take (suc m) rows)
front P m [] h k = absurd (omega arith)
front P m (r ∷ rows) (p, h) k = record { first = r; rest = take m rows; shape = refl; holds = p }

fewer_or_none : (a b k : ℕ) → b ≤ a → (1 ≤ a → suc b ≤ a) → a ≤ suc k → b ≤ k
fewer_or_none zero b k le f h = omega arith
fewer_or_none (suc a) b k le f h = let less = f (omega arith) in omega arith

no_rows : (rows : List OutboxRecord) → length rows ≤ 0 → rows ≡ []
no_rows [] h = refl
no_rows (r ∷ rows) h = absurd (omega arith)

module _ (v7 : ℕ → Uuid) (backoff : BackoffPolicy) (now : Time) where
  abbrev takes_all : OutboxRecord → Bool
  takes_all r = true

  -- One poll, with a publisher that takes everything.
  abbrev pub poll : ℕ → World → World
  poll n w = (run_once (postgres v7) (publisher (λ r. true)) backoff now (pos n) w).1

  abbrev left : World → ℕ
  left w = length (due_records now w.db.outbox)

  after-outbox :
      (rec : OutboxRecord) (w : World)
      → (after v7 takes_all backoff now rec w).db.outbox ≡ published now rec.event_id w.db.outbox
  unfolding settle Outbox.mark_published
  after-outbox rec w = refl

  abbrev relayed : List OutboxRecord → World → World
  relayed records w = (relay (postgres v7) (publisher takes_all) backoff records now w).1

  relayed-nil : (w : World) → relayed [] w ≡ w
  unfolding relay pure
  relayed-nil w = refl

  relayed-cons :
      (rec : OutboxRecord) (records : List OutboxRecord) (w : World)
      → relayed (rec ∷ records) w ≡ relayed records (after v7 takes_all backoff now rec w)
  relayed-cons rec records w = ap (λ p. p.1) (relay-step v7 takes_all backoff now rec records w)

  left-after :
      (rec : OutboxRecord) (w : World) → left (after v7 takes_all backoff now rec w) ≤ left w
  left-after rec w = rw (after-outbox rec w) (length-published now rec.event_id w.db.outbox)

  left-relayed : (records : List OutboxRecord) (w : World) → left (relayed records w) ≤ left w
  left-relayed [] w = rw (relayed-nil w) (omega arith)
  left-relayed (rec ∷ records) w =
      let w' = after v7 takes_all backoff now rec w in
      let rest = left-relayed records w' in
      let first = left-after rec w in
      subst (λ v. left v ≤ left w) (sym (relayed-cons rec records w)) (omega arith)

  left-batch :
      (batch : List OutboxRecord) (w : World)
      → First (λ r. any (is_row now r.event_id) w.db.outbox ≡ true) batch
      → suc (left (relayed batch w)) ≤ left w
  left-batch batch w f =
      let w' = after v7 takes_all backoff now f.first w in
      let rest = left-relayed f.rest w' in
      let fewer : suc (left w') ≤ left w =
        rw (after-outbox f.first w) (length-fewer now f.first.event_id w.db.outbox f.holds) in
      subst (λ v. suc (left v) ≤ left w)
        (sym (relayed-cons f.first f.rest w) ∙ ap (λ b. relayed b w) (sym f.shape)) (omega arith)

  batch-First :
      (m : ℕ) (w : World)
      → 1 ≤ left w
      → First (λ r. any (is_row now r.event_id) w.db.outbox ≡ true) (claimed now (pos (suc m)) w.db)
  batch-First m w h =
      let rows = due_records now w.db.outbox in
      let found = due-rows now w.db.outbox w.db.outbox (λ id e. e) in
      front _ m (sort_by Outbox.is_before rows)
        (All-sort Outbox.is_before (λ r. any (is_row now r.event_id) w.db.outbox ≡ true) rows found)
        (rw (length-sort rows) h)

  -- A poll that finds a record waiting leaves fewer.
  poll-left : (m : ℕ) (w : World) → 1 ≤ left w → suc (left (poll (suc m) w)) ≤ left w
  poll-left m w h =
      rw (run_once-relay v7 takes_all backoff now (pos (suc m)) w)
        (left-batch (claimed now (pos (suc m)) w.db) w (batch-First m w h))

  poll-fewer : (m : ℕ) (w : World) → left (poll (suc m) w) ≤ left w
  poll-fewer m w =
      rw (run_once-relay v7 takes_all backoff now (pos (suc m)) w)
        (left-relayed (claimed now (pos (suc m)) w.db) w)

  abbrev pub polls : ℕ → ℕ → World → World
  polls zero n w = w
  polls (suc k) n w = polls k n (poll n w)

  left-polls : (k m : ℕ) (w : World) → left w ≤ k → left (polls k (suc m) w) ≤ 0
  left-polls zero m w h = h
  left-polls (suc k) m w h =
      left-polls k m (poll (suc m) w)
        (fewer_or_none (left w) _ k (poll-fewer m w) (poll-left m w) h)

  -- Events waiting at some time get published: with a publisher that takes everything and a batch of at least
  -- one, as many polls at that time as records were waiting leave none that waits.
  pub polls-due_records :
      (k m : ℕ) (w : World)
      → length (due_records now w.db.outbox) ≤ k
      → due_records now (polls k (suc m) w).db.outbox ≡ []
  polls-due_records k m w h = no_rows _ (left-polls k m w h)
