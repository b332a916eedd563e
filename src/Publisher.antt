-- ===== src/Publisher.antt =====
-- internal/infra/rabbitmq/publisher.go: an event as a message. The JSON text of an envelope and what the
-- broker answers are arguments.
use wager_service.Base.{
  ℕ, ◌+◌, Bool, true, false, ◌&&◌, String, Option, none, some, [], ◌∷◌, ◌++◌, leb, codes,
  if◌then◌else◌,
}
use wager_service.Ids.{Uuid, Time}
use wager_service.Errors.{Result, ok, err, infrastructure}
use wager_service.Events.{
  Envelope, EventType, wager_transaction_processed, wager_transaction_rejected,
  wallet_balance_changed, wager_transaction_pending_reference,
}
use wager_service.Money.Decimal.{Bytes}
use wager_service.Ports.{M, OutboxRecord}

-- the constants of internal/domain/events/events.go
abbrev pub event_type_name : EventType → String
event_type_name wager_transaction_processed = "WagerTransactionProcessed"
event_type_name wager_transaction_rejected = "WagerTransactionRejected"
event_type_name wallet_balance_changed = "WalletBalanceChanged"
event_type_name wager_transaction_pending_reference = "WagerTransactionPendingReference"

abbrev is_capital : ℕ → Bool
is_capital c = leb b'A' c && leb c b'Z'

-- `r += 'a' - 'A'`
abbrev lower : ℕ → ℕ
lower c = if is_capital c then c + 32 else c

-- the loop of `routingKeyFor` behind the first letter
abbrev key_rest : Bytes → Bytes
key_rest [] = []
key_rest (c ∷ s) = elim (is_capital c) [
  | true ↦ b'.' ∷ lower c ∷ key_rest s
  | false ↦ lower c ∷ key_rest s
]

abbrev key_of : Bytes → Bytes
key_of [] = []
key_of (c ∷ s) = lower c ∷ key_rest s

-- `routingKeyFor`, at the ASCII names of the events
unfoldable pub routing_key_for : String → Bytes
routing_key_for event_type = codes "wager.event." ++ key_of (codes event_type)

-- `amqp.Publishing`
pub record Publishing : Type 0 where
  pub message_id : Uuid
  pub correlation_id : Uuid
  pub timestamp : Time
  pub event_type : String
  pub body : String

-- What comes of a publication: an error of the call, an error of the wait, or the broker's answer.
pub data Confirmation : Type 0 where
  not_sent lost nacked acked : Confirmation

abbrev confirmed : Confirmation → Result (Unit {0})
confirmed acked = ok tt
confirmed _ = err infrastructure

module _ {S : Type 0} (marshal : Envelope → Option String)
    (broker : String → Bytes → Publishing → S → Confirmation × S) (exchange : String) where
  abbrev publish_body : OutboxRecord → Option String → S → Result (Unit {0}) × S
  publish_body rec none s = (err infrastructure, s)
  publish_body rec (some body) s =
      let (answer, s') =
        broker exchange (routing_key_for (event_type_name rec.event_type))
          (record {
            message_id = rec.event_id;
            correlation_id = rec.envelope.correlation_id;
            timestamp = rec.occurred_at;
            event_type = event_type_name rec.event_type;
            body = body;
          })
          s in
      (confirmed answer, s')

  -- `Publish`
  unfoldable pub publish : OutboxRecord → M S (Unit {0})
  publish rec = publish_body rec (marshal rec.envelope)
