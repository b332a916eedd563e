-- ===== src/Http/Lookups.antt =====
-- internal/infra/http/handlers.go: the handlers that show a provider its transactions. The authenticated
-- provider is an argument; where there is none it is the empty text.
use wager_service.Base.{not, String, Option, none, some, str_eq, if◌then◌else◌}
use wager_service.Ids.{Uuid}
use wager_service.Errors.{Result, ok, err}
use wager_service.Wager.{Transaction}
use wager_service.Ports.{Ports}
use wager_service.Queries.{get_transaction, get_transaction_by_external_id}
use wager_service.Http.Responses.{
  Reply, written, refused, status_for_error, TransactionResponse, transaction_to_response,
}

-- `ProviderIDFromContext`, with its second result dropped
abbrev pub provider_or_empty : Option String → String
provider_or_empty none = ""
provider_or_empty (some id) = id

-- another provider's transaction is not found
abbrev pub show_to : String → Result Transaction → Reply TransactionResponse
show_to provider_id (err e) = refused (status_for_error e) "transaction_lookup_failed"
show_to provider_id (ok tx) =
    if not (str_eq tx.provider_id provider_id)
    then refused 404 "not_found"
    else written 200 (transaction_to_response tx)

abbrev pub show : Result Transaction → Reply TransactionResponse
show (err e) = refused (status_for_error e) "transaction_lookup_failed"
show (ok tx) = written 200 (transaction_to_response tx)

module _ {S : Type 0} (P : Ports S) (parse_uuid : String → Option Uuid) where
  abbrev pub show_found : Option String → Option Uuid → S → Reply TransactionResponse × S
  show_found provider none s = (refused 400 "invalid_request", s)
  show_found provider (some id) s =
      let (r, s') = get_transaction P id s in (show_to (provider_or_empty provider) r, s')

  -- `GetWagerTransaction`
  unfoldable pub show_transaction : Option String → String → S → Reply TransactionResponse × S
  show_transaction provider transaction_id = show_found provider (parse_uuid transaction_id)

  -- `GetWagerTransactionByExternalID`
  unfoldable pub show_by_external_id :
      Option String → String → String → S → Reply TransactionResponse × S
  show_by_external_id provider path_provider external_id s =
      if not (str_eq path_provider (provider_or_empty provider))
      then (refused 403 "forbidden", s)
      else (let (r, s') = get_transaction_by_external_id P path_provider external_id s in
          (show r, s'))
