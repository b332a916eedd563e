-- ===== src/Consumer/Retries.antt =====
-- internal/infra/rabbitmq/consumer.go: how a delivery is settled, and how often a failing one comes again.
use wager_service.Base.{
  arith, ℕ, zero, suc, ◌+◌, ◌^◌, ◌<◌, ◌≡◌, refl, sym, ap, ◌∙◌, Bool, true, String, Option, none,
  some, List, [], ◌∷◌,
}
use wager_service.Base.Int.{pos, ◌+ℤ◌}
use wager_service.Ids.{Time, Uuid}
use wager_service.Errors.{
  Error, Result, ok, err, idempotency_key_reused, external_transaction_key_mismatch,
}
use wager_service.Process.Request.{Command, ProcessResult}
use wager_service.Postgres.{postgres}
use wager_service.Postgres.Database.{World}
use wager_service.Transport.{WagerOperationRequest}
use wager_service.Consumer.{
  Delivery, Action, Config, publish_retry, publish_dead_letter, ack, requeue, retry_count, int32,
  retry, conclude, retry_budget_exhausted, run_command, run_request, run_provider, handle,
}

-- How often a list of actions settles the delivery: an acknowledgement or a return to the queue.
abbrev pub settlements : List Action → ℕ
settlements [] = 0
settlements (ack ∷ actions) = suc (settlements actions)
settlements (requeue ∷ actions) = suc (settlements actions)
settlements (_ ∷ actions) = settlements actions

retry-settlements : (c : Config) (d : Delivery) (taken : Bool) → settlements (retry c d taken) ≡ 1
unfolding retry
retry-settlements c d taken = ground arith

conclude-settlements :
    (c : Config) (d : Delivery) (taken : Bool) (r : Result ProcessResult)
    → settlements (conclude c d taken r) ≡ 1
unfolding conclude
conclude-settlements c d taken r = ground (arith, retry-settlements c d taken)

module _ (v7 : ℕ → Uuid) (c : Config) (d : Delivery) (taken : Bool) where
  command-settlements :
      (r : Result Command) (w : World) → settlements (run_command (postgres v7) c d taken r w).0 ≡ 1
  unfolding run_command
  command-settlements (ok cmd) w = conclude-settlements c d taken _
  command-settlements (err e) w = refl

  request-settlements :
      (now : Time) (provider_id : String) (r : Result WagerOperationRequest) (w : World)
      → settlements (run_request (postgres v7) c d now taken provider_id r w).0 ≡ 1
  unfolding run_request
  request-settlements now provider_id (ok req) w = command-settlements _ _
  request-settlements now provider_id (err e) w = refl

  provider-settlements :
      (now : Time) (r : Result String) (w : World)
      → settlements (run_provider (postgres v7) c d now taken r w).0 ≡ 1
  unfolding run_provider
  provider-settlements now (ok provider_id) w =
      request-settlements now provider_id (c.unmarshal d.body) w
  provider-settlements now (err e) w = refl

-- Whatever a delivery holds, whatever the use case answers, and whether or not the channel takes what is
-- published, `handle` settles the delivery exactly once.
pub handle-settlements :
    (v7 : ℕ → Uuid) (c : Config) (d : Delivery) (now : Time) (taken : Bool) (w : World)
    → settlements (handle (postgres v7) c d now taken w).0 ≡ 1
unfolding handle
handle-settlements v7 c d now taken w =
    ground (arith, provider-settlements v7 c d taken now (c.resolve_provider d) w)

-- The delivery that the broker makes of a published retry.
abbrev pub redelivered : List Action → Option Delivery
redelivered [] = none
redelivered (publish_retry d delay ∷ actions) = some d
redelivered (_ ∷ actions) = redelivered actions

-- How a chain of redeliveries ends: after so many deliveries, with these last actions; `none` where the fuel
-- runs out. `outcome` is what `Execute` returns to each delivery.
unfoldable pub chain : ℕ → Config → Result ProcessResult → Delivery → Option (ℕ × List Action)
chain zero c outcome d = none
chain (suc fuel) c outcome d =
    let actions = conclude c d true outcome in
    elim (redelivered actions) [
      | none ↦ some (1, actions)
      | some d' ↦ elim (chain fuel c outcome d') [
        | none ↦ none
        | some (n, last) ↦ some (suc n, last)
      ]
    ]

-- A transient error: any but the two that go to the dead-letter exchange at once.
abbrev pub IsTransient : Error → Type 0
IsTransient idempotency_key_reused = ⊥
IsTransient external_transaction_key_mismatch = ⊥
IsTransient _ = Unit

conclude-transient :
    (c : Config) (d : Delivery) (taken : Bool) (e : Error)
    → IsTransient e
    → conclude c d taken (err e) ≡ retry c d taken
unfolding conclude
conclude-transient c d taken e t = ground arith

retry-last :
    (c : Config) (d : Delivery) (k : ℕ)
    → c.max_retries ≡ pos k
    → retry_count d ≡ pos k
    → retry c d true ≡ publish_dead_letter d retry_budget_exhausted ∷ ack ∷ []
unfolding retry ◌+ℤ◌
retry-last c d k m e = ground arith

abbrev counted : Delivery → ℕ → Delivery
counted d k = record d { retry_header = some (pos k) }

retry-next :
    (c : Config) (d : Delivery) (k n : ℕ)
    → c.max_retries ≡ pos (k + suc n)
    → k + suc n < 2 ^ 31
    → retry_count d ≡ pos k
    → redelivered (retry c d true) ≡ some (counted d (suc k))
unfolding retry ◌+ℤ◌ int32
retry-next c d k n m b e = ground arith

-- The delivery at the end of a chain: as it came, or with the last count in its header.
abbrev pub last_delivery : Delivery → ℕ → ℕ → Delivery
last_delivery d k zero = d
last_delivery d k (suc n) = counted d (k + suc n)

chain_step :
    (fuel : ℕ) (c : Config) (outcome : Result ProcessResult) (d d' : Delivery) (n : ℕ)
    (last : List Action)
    → redelivered (conclude c d true outcome) ≡ some d'
    → chain fuel c outcome d' ≡ some (n, last)
    → chain (suc fuel) c outcome d ≡ some (suc n, last)
unfolding chain
chain_step fuel c outcome d d' n last e h = ground (arith, e, h)

chain_end :
    (fuel : ℕ) (c : Config) (outcome : Result ProcessResult) (d : Delivery)
    → redelivered (conclude c d true outcome) ≡ none
    → chain (suc fuel) c outcome d ≡ some (1, conclude c d true outcome)
unfolding chain
chain_end fuel c outcome d e = ground (arith, e)

last_of_counted :
    (d : Delivery) (k n : ℕ) → last_delivery (counted d (suc k)) (suc k) n ≡ counted d (k + suc n)
last_of_counted d k zero = ap (counted d) (omega arith)
last_of_counted d k (suc n) = ap (counted d) (omega arith)

-- An operation that fails with a transient error at every delivery: with `n` retries left of the budget the
-- message is delivered `n + 1` times in all, and then goes to the dead-letter exchange and is
-- acknowledged. The budget is below 2^31, and the channel takes what is published.
pub chain-dead_letter :
    (n k : ℕ) (c : Config) (d : Delivery) (e : Error)
    → IsTransient e
    → c.max_retries ≡ pos (k + n)
    → k + n < 2 ^ 31
    → retry_count d ≡ pos k
    → chain (suc n) c (err e) d
      ≡ some (suc n, publish_dead_letter (last_delivery d k n) retry_budget_exhausted ∷ ack ∷ [])
chain-dead_letter zero k c d e t m b h =
    let last = conclude-transient c d true e t ∙ retry-last c d k (m ∙ ap pos (omega arith)) h in
    chain_end zero c (err e) d (rw last refl) ∙ rw last refl
chain-dead_letter (suc n) k c d e t m b h =
    chain_step (suc n) c (err e) d (counted d (suc k)) (suc n) _
      (rw (conclude-transient c d true e t) (retry-next c d k n m b h))
      (rw (sym (last_of_counted d k n)) (
        chain-dead_letter n (suc k) c (counted d (suc k)) e t (m ∙ ap pos (omega arith))
          (omega arith) refl))
