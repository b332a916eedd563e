-- ===== src/Tests/Polls.antt =====
-- One event in the outbox (internal/infra/rabbitmq/outbox_worker.go).
use wager_service.Base.{
  arith, ◌≤◌, ◌≡◌, refl, true, none, some, [], ◌∷◌, ◌+◌, ◌*◌, keep, length, find, any,
}
use wager_service.Base.Int.{pos}
use wager_service.Ids.{second}
use wager_service.Events.{wager_transaction_pending_reference, pending_reference}
use wager_service.Ports.{OutboxRecord}
use wager_service.Postgres.{postgres}
use wager_service.Postgres.Database.{World}
use wager_service.Postgres.Outbox
use wager_service.Backoff.{BackoffPolicy}
use wager_service.Relay.{run_once}
use wager_service.Relay.Drained.{due_records, polls, polls-due_records}
use wager_service.Relay.Delivered.{publisher, is_taken, claimed, Settled, run_once-Settled}

-- `DefaultBackoffPolicy`
abbrev policy : BackoffPolicy
policy = record { base = pos (2 * second); max = pos (300 * second) }

abbrev event : OutboxRecord
event = record {
  event_id = 21;
  aggregate_id = 11;
  event_type = wager_transaction_pending_reference;
  envelope = record {
    event_id = 21;
    event_type = wager_transaction_pending_reference;
    aggregate_id = 11;
    correlation_id = 9;
    causation_id = none;
    occurred_at = 5;
    version = 1;
    payload = pending_reference (record {
      transaction_id = 11;
      provider_id = "p";
      external_transaction_id = "refund-1";
      wallet_id = 100;
      reference_external_transaction_id = "bet-2";
      registered_at = 0;
    });
  };
  occurred_at = 5;
  attempts = 0;
  next_attempt = 5;
  published_at = none;
}

abbrev waiting : World
waiting = record {
  db = record { wallets = []; transactions = []; ledger = []; inbox = []; outbox = event ∷ [] };
  drawn = 0;
}

event-found : find (Outbox.has_event_id 21) waiting.db.outbox ≡ some event
unfolding find
event-found = refl

run_once-Settled_example :
    (r' : OutboxRecord) × (find
        (Outbox.has_event_id 21)
        (run_once
          (postgres (λ n. 100 + n))
          (publisher (λ r. true))
          policy
          7
          (pos 10)
          waiting).1.db.outbox
      ≡ some r')
    × Settled event (any (is_taken (λ r. true) 21) (claimed 7 (pos 10) waiting.db)) 7 r'
run_once-Settled_example =
    run_once-Settled (λ n. 100 + n) (λ r. true) policy 7 21 (pos 10) event waiting event-found

one_due : length (due_records 7 waiting.db.outbox) ≤ 3
unfolding keep
one_due = omega arith

polls-due_records_example :
    due_records 7 (polls (λ n. 100 + n) policy 7 3 10 waiting).db.outbox ≡ []
polls-due_records_example = polls-due_records (λ n. 100 + n) policy 7 3 9 waiting one_due
