-- ===== src/Http.antt =====
-- internal/infra/http/handlers.go: `SubmitWagerTransaction`. The authenticated provider and the decoded body
-- are arguments, and so is `uuid.Parse`.
pub mod Money
pub mod Responses
pub mod Wallets
pub mod Lookups
pub mod Health
pub mod Provider
pub mod Refused
use Responses.{Reply, ProcessResultResponse, written, refused, process_result_to_response}
use wager_service.Base.{ℕ, Bool, true, false, not, String, Option, none, some, if◌then◌else◌}
use wager_service.Ids.{Uuid, Time}
use wager_service.Errors.{
  Error, Result, ok, err, idempotency_key_reused, external_transaction_key_mismatch,
}
use wager_service.Wager.{is_blank}
use wager_service.Ports.{M, Ports}
use wager_service.Process
use wager_service.Process.Request.{Command, CanonicalPayload, ProcessResult}
use wager_service.Transport.{WagerOperationRequest, to_command}

abbrev pub Response : Type 0
Response = Reply ProcessResultResponse

-- the end of the handler, on what `Execute` returned
unfoldable pub respond : Result ProcessResult → Response
respond (ok r) =
    written (if not r.idempotent_replay then 201 else 200) (process_result_to_response r)
respond (err idempotency_key_reused) = refused 409 "idempotency_conflict"
respond (err external_transaction_key_mismatch) = refused 409 "idempotency_conflict"
respond (err e) = refused 500 "processing_failed"

-- the header `Idempotency-Key` before the field of the body
abbrev pub with_key : String → WagerOperationRequest → WagerOperationRequest
with_key key req = if is_blank key then req else record req { idempotency_key = key }

module _ {S : Type 0} (P : Ports S) (canonical_hash : CanonicalPayload → Result String)
    (parse_uuid : String → Option Uuid) where
  unfoldable pub submit_command : Result Command → S → Response × S
  submit_command (err e) s = (refused 400 "invalid_request", s)
  submit_command (ok cmd) s =
      let (r, s') = Process.execute P canonical_hash cmd s in (respond r, s')

  unfoldable pub submit_request : String → Time → WagerOperationRequest → S → Response × S
  submit_request provider_id now req s =
      let (id, s') = P.new_v7 s in
      elim id [
        | err e ↦ (refused 500 "processing_failed", s')
        | ok correlation_id ↦
            submit_command (to_command parse_uuid req provider_id now correlation_id none) s'
      ]

  unfoldable pub submit_body :
      String → String → Time → Result WagerOperationRequest → S → Response × S
  submit_body provider_id key now (err e) s = (refused 400 "invalid_request", s)
  submit_body provider_id key now (ok req) s = submit_request provider_id now (with_key key req) s

  -- `SubmitWagerTransaction`
  unfoldable pub submit :
      Option String → String → Time → Result WagerOperationRequest → S → Response × S
  submit none key now body s = (refused 401 "unauthorized", s)
  submit (some provider_id) key now body s =
      if is_blank provider_id
      then (refused 401 "unauthorized", s)
      else submit_body provider_id key now body s
