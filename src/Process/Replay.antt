-- ===== src/Process/Replay.antt =====
-- internal/application/process_wager_transaction.go: the answer to a command whose idempotency key is
-- recorded, on the repositories of internal/infra/postgres.
use wager_service.Base.{arith, ℕ, ◌≡◌, true, not, String, Option, none, str_eq, if◌then◌else◌}
use wager_service.Ids.{Uuid}
use wager_service.Errors.{
  Result, ok, err, idempotency_key_reused, external_transaction_key_mismatch,
}
use wager_service.Wager.{Transaction}
use wager_service.Ports.{◌>>=◌, nil_if_missing}
use wager_service.Postgres.{postgres}
use wager_service.Postgres.Database.{World}
use wager_service.Postgres.Transactions
use wager_service.Process
use wager_service.Process.{has_other_key, execute}
use wager_service.Process.Request.{
  Command, CanonicalPayload, ProcessResult, canonical_payload_from, result_from_transaction,
}

-- What a command should be answered that meets `known` under its idempotency key, where its external
-- identifier was looked up as `by_external`.
abbrev pub answer :
    Command → String → Result (Option Transaction) → Transaction → Result ProcessResult
answer cmd hash (err e) known = err e
answer cmd hash (ok by_external) known =
    if has_other_key cmd by_external
    then err external_transaction_key_mismatch
    else if not (str_eq known.payload_hash hash)
    then err idempotency_key_reused
    else ok (result_from_transaction known true)

-- A command over HTTP whose idempotency key is recorded with `known` changes nothing, draws no identifier
-- and is answered from the record: with the recorded result marked as a replay; or, where the external
-- identifier belongs to another key or the payload has another hash, with the error that says so.
pub execute-known :
    (v7 : ℕ → Uuid) (canonical_hash : CanonicalPayload → Result String) (cmd : Command)
    (hash : String) (known : Transaction) (w : World)
    → cmd.inbox ≡ none
    → canonical_hash (canonical_payload_from cmd) ≡ ok hash
    → (Transactions.find_by_idempotency_key cmd.provider_id cmd.idempotency_key w).0 ≡ ok known
    → execute (postgres v7) canonical_hash cmd w ≡ (
      answer cmd hash
          (nil_if_missing
            (Transactions.find_by_provider_and_external_id cmd.provider_id
              cmd.external_transaction_id w).0)
          known,
      w,
    )
unfolding execute Process.execute_body Process.process_idempotently Process.replay_or_start
    Process.replay Transactions.find_by_idempotency_key
    Transactions.find_by_provider_and_external_id ◌>>=◌
execute-known v7 canonical_hash cmd hash known w direct hashed found = ground arith
