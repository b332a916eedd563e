-- ===== src/Idempotency/Execute.antt =====
-- internal/application/process_wager_transaction.go: `Execute` and the table of transactions.
use wager_service.Base.{
  arith, ℕ, ◌≡◌, refl, subst, true, false, ◌||◌, String, Option, none, some, List, any, inl,
}
use wager_service.Ids.{Uuid, Time, is_nil}
use wager_service.Errors.{Result, ok, err, conflict}
use wager_service.Wager.{
  Transaction, is_blank, pending, new_external, check_external, external_transaction,
}
use wager_service.Ports.{InboxRecord, pure, attempt, ◌>>=◌}
use wager_service.Postgres.{postgres}
use wager_service.Postgres.Database.{Db, World, TxRow}
use wager_service.Postgres.Transactions
use wager_service.Postgres.Transactions.{row_of, clashes}
use wager_service.Postgres.Inbox
use wager_service.Process.{
  external_params, replay, replay_concurrent, created, start, replay_or_start, process_idempotently,
  replay_by_idempotency_key, handle_found, handle_inbox, replay_completed, process_and_complete,
  execute_body, execute,
}
use wager_service.Process.Request.{
  Command, InboxDedup, ProcessResult, CanonicalPayload, canonical_payload_from,
}
use wager_service.Invariants.Triple.{Leads, Keeps-read, Reads-or_nil, Reads-attempt}
use wager_service.Invariants.Stable.{draw-Reads}
use wager_service.Invariants.Reads.{find_external-Reads, find_key-Reads, find_record-Reads}
use wager_service.Invariants.Gives.{
  Gives, Answers, Gives-fail, Gives-pure, Gives-if, Gives-bind, Gives-then, Gives-lift,
  within_tx-Gives,
}
use wager_service.Idempotency.Rows.{Own}
use wager_service.Idempotency.Fresh.{clashes-IsNew}
use wager_service.Idempotency.Outcome.{OnRows, Holds, Q, Answered}
use wager_service.Idempotency.Kinds.{dispatch-Answered}

started_as :
    (cmd : Command) (hash : String) (id : Uuid) (tx : Transaction)
    → new_external (external_params cmd hash id) cmd.now ≡ ok tx
    → external_transaction (external_params cmd hash id) cmd.now ≡ tx
unfolding new_external
started_as cmd hash id tx e = ground arith

checked :
    (cmd : Command) (hash : String) (id : Uuid) (tx : Transaction)
    → new_external (external_params cmd hash id) cmd.now ≡ ok tx
    → ((is_nil id || (is_nil cmd.wallet_id || is_nil cmd.player_id)) ≡ false)
      × ((is_blank cmd.provider_id
            || (is_blank cmd.external_transaction_id
                || (is_blank cmd.idempotency_key || is_blank hash)))
          ≡ false)
unfolding new_external check_external
checked cmd hash id tx e = ground arith

started-Own :
    (cmd : Command) (hash : String) (id : Uuid) (tx : Transaction)
    → new_external (external_params cmd hash id) cmd.now ≡ ok tx
    → Own cmd hash tx × (tx.resulting_balance ≡ none) × (tx.status ≡ pending)
started-Own cmd hash id tx e =
    let (identified, named) = checked cmd hash id tx e in
    subst (λ t. Own cmd hash t × (t.resulting_balance ≡ none) × (t.status ≡ pending))
      (started_as cmd hash id tx e)
      (
        record {
          provider = refl;
          external = refl;
          key = refl;
          payload = refl;
          wallet = refl;
          player = refl;
          round = refl;
          game = refl;
          reference = refl;
          kind = refl;
          money = refl;
          identified = identified;
          named = named;
        },
        refl,
        refl,
      )

module _ (v7 : ℕ → Uuid) (rows₀ : List TxRow) (cmd : Command) (hash : String) where
  abbrev I : Db → Type 0
  I = OnRows (λ rows. rows ≡ rows₀)

  abbrev R : ProcessResult → Db → Type 0
  R = Q v7 rows₀ cmd hash

  replay-Answered : (tx : Transaction) → Gives I (replay (postgres v7) hash tx) R
  unfolding replay
  replay-Answered tx = Gives-if _ _ _ (Gives-fail _) (Gives-pure _ (λ db h. inl (refl, h)))

  replay_concurrent-Answered :
      (r : Result Transaction) → Gives I (replay_concurrent (postgres v7) hash r) R
  unfolding replay_concurrent
  replay_concurrent-Answered (ok tx) = replay-Answered tx
  replay_concurrent-Answered (err e) = Gives-fail _

  -- what `Create` leaves, by its result
  abbrev Created : Transaction → Result (Unit {0}) → Db → Type 0
  Created tx (ok u) db = Holds v7 rows₀ cmd hash tx db × (any (clashes (row_of tx)) rows₀ ≡ false)
  Created tx (err e) db = I db

  create-Created : (tx : Transaction) → Gives I (attempt (Transactions.create tx)) (Created tx)
  unfolding attempt Transactions.create
  create-Created tx = record { at = λ w h. ground (arith, h) }

  created-Answered :
      (tx : Transaction) (r : Result (Unit {0}))
      → Own cmd hash tx
      → tx.resulting_balance ≡ none
      → tx.status ≡ pending
      → Gives (Created tx r) (created (postgres v7) cmd hash tx r) R
  unfolding created
  created-Answered tx (ok u) own undecided unsettled = record {
    at = λ w h.
        (dispatch-Answered v7 rows₀ cmd hash tx cmd.kind
            (record {
              own = own;
              new = clashes-IsNew rows₀ cmd hash tx own h.1;
              undecided = undecided;
              unsettled = unsettled;
            })
            refl).at
          w h.0;
  }
  created-Answered tx (err conflict) own undecided unsettled =
      Gives-bind _ _ (Keeps-read _ (Reads-attempt _ (find_key-Reads _ _)))
        λ r. replay_concurrent-Answered r
  created-Answered tx (err _) own undecided unsettled = Gives-fail _

  start-Answered : Gives I (start (postgres v7) cmd hash) R
  unfolding start
  start-Answered = Gives-bind _ _ (Keeps-read _ (draw-Reads v7)) λ id. Gives-lift _ _ λ tx e.
      let (own, undecided, unsettled) = started-Own cmd hash id tx e in
      Gives-then {R = Created tx} _ _ (create-Created tx)
        λ r. created-Answered tx r own undecided unsettled

  replay_or_start-Answered :
      (o : Option Transaction) → Gives I (replay_or_start (postgres v7) cmd hash o) R
  unfolding replay_or_start
  replay_or_start-Answered (some tx) = replay-Answered tx
  replay_or_start-Answered none = start-Answered

  process_idempotently-Answered : Gives I (process_idempotently (postgres v7) cmd hash) R
  unfolding process_idempotently
  process_idempotently-Answered =
      Gives-bind _ _ (Keeps-read _ (Reads-or_nil _ (find_external-Reads _ _))) λ by_external.
        Gives-if _ _ _ (Gives-fail _) (
          Gives-bind _ _ (Keeps-read _ (Reads-or_nil _ (find_key-Reads _ _)))
            λ by_key. replay_or_start-Answered by_key)

  -- what the inbox decides: to go on, or an answer that is a replay
  abbrev Handled : Option ProcessResult → Db → Type 0
  Handled none db = I db
  Handled (some r) db = (r.idempotent_replay ≡ true) × I db

  replay_completed-Handled :
      (o : Option Time) → Gives I (replay_completed (postgres v7) cmd o) Handled
  unfolding replay_completed replay_by_idempotency_key
  replay_completed-Handled none = Gives-pure none (λ db h. h)
  replay_completed-Handled (some t) =
      Gives-then {R = λ r. Handled (some r)} _ _
        (Gives-bind _ _ (Keeps-read _ (find_key-Reads _ _)) λ tx. Gives-pure _ (λ db h. (refl, h)))
        λ r. Gives-pure (some r) (λ db h. h)

  insert-I : (rec : InboxRecord) → Leads I (Inbox.insert rec) I
  unfolding Inbox.insert
  insert-I rec = record { at = λ w h. ground (arith, h) }

  handle_found-Handled :
      (dedup : InboxDedup) (o : Option InboxRecord)
      → Gives I (handle_found (postgres v7) cmd dedup hash o) Handled
  unfolding handle_found
  handle_found-Handled dedup none = Gives-bind _ _ (insert-I _) λ _. Gives-pure none (λ db h. h)
  handle_found-Handled dedup (some rec) =
      Gives-if _ _ _ (Gives-fail _) (replay_completed-Handled rec.completed_at)

  handle_inbox-Handled :
      (dedup : InboxDedup) → Gives I (handle_inbox (postgres v7) cmd dedup hash) Handled
  unfolding handle_inbox
  handle_inbox-Handled dedup =
      Gives-bind _ _ (Keeps-read _ (Reads-or_nil _ (find_record-Reads _ _)))
        λ o. handle_found-Handled dedup o

  mark-R :
      (r : ProcessResult) (c m : String) (at : Time)
      → Gives (R r) (Inbox.mark_completed c m at >>= λ _. pure r) R
  unfolding Inbox.mark_completed ◌>>=◌
  mark-R r c m at = record { at = λ w h. h }

  process_and_complete-Answered :
      (dedup : InboxDedup) (o : Option ProcessResult)
      → Gives (Handled o) (process_and_complete (postgres v7) cmd dedup hash o) R
  unfolding process_and_complete
  process_and_complete-Answered dedup (some r) = Gives-pure r (λ db h. inl h)
  process_and_complete-Answered dedup none =
      Gives-then _ _ process_idempotently-Answered λ r. mark-R r _ _ _

  execute_body-Answered :
      (o : Option InboxDedup) → Gives I (execute_body (postgres v7) cmd hash o) R
  unfolding execute_body
  execute_body-Answered none = process_idempotently-Answered
  execute_body-Answered (some dedup) =
      Gives-then _ _ (handle_inbox-Handled dedup) λ o. process_and_complete-Answered dedup o

  executed-Answered :
      (canonical_hash : CanonicalPayload → Result String)
      → canonical_hash (canonical_payload_from cmd) ≡ ok hash
      → Gives I (execute (postgres v7) canonical_hash cmd) R
  unfolding execute ◌>>=◌
  executed-Answered canonical_hash e = record {
    at = λ w h. rw e ((within_tx-Gives _ (execute_body-Answered cmd.inbox)).at w h);
  }

-- A command that `Execute` answers without an error, in any database: either the answer is a replay and no
-- row of the table of transactions changed; or it is not, no row had the command's idempotency key or
-- external identifier, exactly one row was appended and every other row is as it was. That row carries
-- the command's provider, external identifier, key, payload hash, wallet, player, round, game, reference,
-- kind and amount, and the answer is read off it; its resulting balance, if there is one, is in the command's
-- currency, except perhaps for a loss; and if it is a processed refund or rollback, it carries as its
-- resolved reference the identifier of the row that the command's provider and reference name, which was
-- there before and of which no row had been a processed refund or rollback.
pub execute-Answered :
    (v7 : ℕ → Uuid) (canonical_hash : CanonicalPayload → Result String) (cmd : Command)
    (hash : String) (w w' : World) (r : ProcessResult)
    → canonical_hash (canonical_payload_from cmd) ≡ ok hash
    → execute (postgres v7) canonical_hash cmd w ≡ (ok r, w')
    → Answered w.db.transactions cmd hash r w'.db.transactions
execute-Answered v7 canonical_hash cmd hash w w' r hashed e =
    subst (Answers (λ r db. Answered w.db.transactions cmd hash r db.transactions)) e
      ((executed-Answered v7 w.db.transactions cmd hash canonical_hash hashed).at w refl)
