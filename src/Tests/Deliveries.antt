-- ===== src/Tests/Deliveries.antt =====
-- Deliveries to the consumer (internal/infra/rabbitmq/consumer.go).
use wager_service.Base.{true, ◌+◌, ◌≡◌, refl, none, some, [], ◌∷◌, arith}
use wager_service.Base.Int.{pos}
use wager_service.Errors.{ok, err, infrastructure, invalid_request, database}
use wager_service.Postgres.{postgres}
use wager_service.Consumer.{
  Config, Delivery, publish_dead_letter, ack, retry_budget_exhausted, handle,
}
use wager_service.Consumer.Retries.{
  settlements, chain, last_delivery, handle-settlements, chain-dead_letter,
}
use wager_service.Service.{empty}

-- A consumer whose messages all come from one provider and cannot be read.
abbrev consumer : Config
consumer = record {
  consumer_name = "wager-consumer";
  max_retries = pos 5;
  resolve_provider = λ d. ok "p";
  unmarshal = λ body. err invalid_request;
  parse_uuid = λ s. none;
  canonical_hash = λ p. err infrastructure;
}

abbrev delivery : Delivery
delivery = record {
  message_id = "m1";
  retry_header = none;
  provider_header = some "p";
  body = "{}";
}

handle-settlements_example :
    settlements (handle (postgres (λ n. 100 + n)) consumer delivery 5 true empty).0 ≡ 1
handle-settlements_example = handle-settlements (λ n. 100 + n) consumer delivery 5 true empty

chain-dead_letter_example :
    chain 6 consumer (err database) delivery
    ≡ some (6, publish_dead_letter (last_delivery delivery 0 5) retry_budget_exhausted ∷ ack ∷ [])
chain-dead_letter_example =
    chain-dead_letter 5 0 consumer delivery database tt refl (omega arith) refl
