-- ===== src/Consumer.antt =====
-- internal/infra/rabbitmq/consumer.go: what becomes of one delivery. `resolveProvider` and
-- `json.Unmarshal` are parameters, and so is whether the channel takes a message that is published. A panic
-- and its recovery are not modelled.
pub mod Retries
use wager_service.Base.{
  ℕ, ◌-◌, ◌%◌, ◌^◌, Bool, true, false, String, Option, none, some, List, [], ◌∷◌, ltb,
  if◌then◌else◌,
}
use wager_service.Base.Int.{ℤ, pos, negsuc, ◌+ℤ◌, pos_part, ltb_ℤ}
use wager_service.Ids.{Uuid, Time, Duration}
use wager_service.Errors.{
  Error, Result, ok, err, infrastructure, idempotency_key_reused, external_transaction_key_mismatch,
}
use wager_service.Wager.{is_blank}
use wager_service.Ports.{M, Ports}
use wager_service.Process
use wager_service.Process.Request.{Command, CanonicalPayload, ProcessResult}
use wager_service.Transport.{WagerOperationRequest, to_command}
use wager_service.Backoff.{backoff_for}

-- `amqp.Delivery`: the retry header is absent (or of another type), or an integer; the header
-- `x-provider-id` is absent (or of another type), or a text.
pub record Delivery : Type 0 where
  pub message_id : String
  pub retry_header : Option ℤ
  pub provider_header : Option String
  pub body : String

-- Why a message goes to the dead-letter exchange.
pub data Reason : Type 0 where
  missing_message_id provider_resolution_failed malformed_body invalid_payload : Reason
  idempotency_conflict retry_budget_exhausted : Reason

-- The calls on the channel, in order.
pub data Action : Type 0 where
  publish_retry : Delivery → Duration → Action
  publish_dead_letter : Delivery → Reason → Action
  ack requeue : Action

-- What the consumer is built from.
pub record Config : Type 0 where
  pub consumer_name : String
  pub max_retries : ℤ
  pub resolve_provider : Delivery → Result String
  pub unmarshal : String → Result WagerOperationRequest
  pub parse_uuid : String → Option Uuid
  pub canonical_hash : CanonicalPayload → Result String

abbrev provider_of : Option String → Result String
provider_of none = err infrastructure
provider_of (some v) = if is_blank v then err infrastructure else ok v

-- `singleProviderResolver` of internal/infra/fxmodules/rabbitmq.go, which the wiring gives to the consumer
abbrev pub single_provider_resolver : Delivery → Result String
single_provider_resolver d = provider_of d.provider_header

-- `retryCount`
abbrev pub retry_count : Delivery → ℤ
retry_count d = elim d.retry_header [ none ↦ pos 0 | some v ↦ v ]

abbrev signed32 : ℕ → ℤ
signed32 w = if ltb w (2 ^ 31) then pos w else negsuc (2 ^ 32 - 1 - w)

-- `int32(n)`
unfoldable pub int32 : ℤ → ℤ
int32 (pos n) = signed32 (n % 2 ^ 32)
int32 (negsuc n) = signed32 (2 ^ 32 - 1 - n % 2 ^ 32)

-- `deadLetter` and the `Ack` behind it, which does not ask whether the message was taken
abbrev pub dead_letter : Delivery → Reason → List Action
dead_letter d reason = publish_dead_letter d reason ∷ ack ∷ []

-- `retry`; a delay below the first attempt is that of the first.
unfoldable pub retry : Config → Delivery → Bool → List Action
unfolding int32
retry c d taken =
    let attempt : ℤ = retry_count d +ℤ pos 1 in
    if ltb_ℤ c.max_retries attempt
    then dead_letter d retry_budget_exhausted
    else publish_retry (record d { retry_header = some (int32 attempt) })
        (backoff_for (pos_part attempt))
      ∷ (if taken then ack else requeue)
      ∷ []

-- the end of `handle`, on what `Execute` returned
unfoldable pub conclude : Config → Delivery → Bool → Result ProcessResult → List Action
conclude c d taken (ok r) = ack ∷ []
conclude c d taken (err idempotency_key_reused) = dead_letter d idempotency_conflict
conclude c d taken (err external_transaction_key_mismatch) = dead_letter d idempotency_conflict
conclude c d taken (err e) = retry c d taken

module _ {S : Type 0} (P : Ports S) (c : Config) where
  unfoldable pub run_command : Delivery → Bool → Result Command → S → List Action × S
  run_command d taken (err e) s = (dead_letter d invalid_payload, s)
  run_command d taken (ok cmd) s =
      let (r, s') = Process.execute P c.canonical_hash cmd s in (conclude c d taken r, s')

  unfoldable pub run_request :
      Delivery → Time → Bool → String → Result WagerOperationRequest → S → List Action × S
  run_request d now taken provider_id (err e) s = (dead_letter d malformed_body, s)
  run_request d now taken provider_id (ok req) s =
      let (id, s') = P.new_v7 s in
      elim id [
        | err e ↦ ([], s')
        | ok correlation_id ↦
            run_command d taken
              (to_command c.parse_uuid req provider_id now correlation_id
                (some (record { consumer_name = c.consumer_name; message_id = d.message_id })))
              s'
      ]

  unfoldable pub run_provider : Delivery → Time → Bool → Result String → S → List Action × S
  run_provider d now taken (err e) s = (dead_letter d provider_resolution_failed, s)
  run_provider d now taken (ok provider_id) s =
      run_request d now taken provider_id (c.unmarshal d.body) s

  -- `handle`; `taken` says whether the channel takes a retry that is published.
  unfoldable pub handle : Delivery → Time → Bool → S → List Action × S
  handle d now taken s =
      if is_blank d.message_id
      then (dead_letter d missing_message_id, s)
      else run_provider d now taken (c.resolve_provider d) s
