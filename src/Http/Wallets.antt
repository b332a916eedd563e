-- ===== src/Http/Wallets.antt =====
-- internal/infra/http/handlers.go: the handlers of wallets. A decoded body, a path parameter and a query
-- parameter are arguments, and so is `uuid.Parse`.
use wager_service.Base.{
  ℕ, ◌-◌, Bool, true, false, not, ◌||◌, String, Option, none, some, List, [], ◌∷◌, map, ltb, codes,
  if◌then◌else◌,
}
use wager_service.Base.Int.{ℤ, pos, ◌+ℤ◌, ◌*ℤ◌, ltb_ℤ}
use wager_service.Ids.{Uuid, Time}
use wager_service.Errors.{Result, ok, err}
use wager_service.Money
use wager_service.Money.{Money, is_negative}
use wager_service.Money.Int64.{wrap64}
use wager_service.Money.Decimal.{Bytes}
use wager_service.Wager.{is_blank}
use wager_service.Ledger.{Entry}
use wager_service.Ports.{Ports}
use wager_service.OpenWallet
use wager_service.OpenWallet.{OpenWalletCommand, OpenWalletResult}
use wager_service.Reconcile
use wager_service.Queries.{ListByWallet, get_wallet, get_ledger_page}
use wager_service.Http.Responses.{
  Reply, written, refused, status_for_error, WalletResponse, as_sent, wallet_to_response,
  LedgerPageResponse, ledger_entry_to_response, ReconciliationResponse, reconciliation_to_response,
}

-- `openWalletRequest`
pub record OpenWalletRequest : Type 0 where
  pub player_id : String
  pub initial_balance : String
  pub currency : String

-- The readings of the clock in `OpenWallet`: for the command, and for the two fields of the answer.
pub record Clock : Type 0 where
  pub now : Time
  pub created_at : Time
  pub updated_at : Time

-- what a use case returned: a body, or an error with `statusForError`
abbrev pub reply_to : {S A B : Type 0} → ℕ → String → (A → B) → Result A × S → Reply B × S
reply_to status code body (ok a, s) = (written status (body a), s)
reply_to status code body (err e, s) = (refused (status_for_error e) code, s)

-- the initial balance of the request
abbrev pub initial_balance : OpenWalletRequest → Result Money
initial_balance req =
    if is_blank req.initial_balance
    then Money.zero req.currency
    else Money.parse (codes req.initial_balance) req.currency

abbrev pub opened_response : OpenWalletRequest → Clock → OpenWalletResult → WalletResponse
opened_response req clock r = record {
  id = r.wallet_id;
  player_id = as_sent req.player_id;
  currency = r.balance.currency;
  balance = Money.to_string r.balance;
  version = r.version;
  created_at = clock.created_at;
  updated_at = clock.updated_at;
}

abbrev is_digit_of : ℕ → Bool
is_digit_of c = not (ltb c b'0' || ltb b'9' c)

-- the loop of `parsePositiveInt`; an `int` has 64 bits
abbrev digits_value : ℤ → Bytes → Option ℤ
digits_value n [] = some n
digits_value n (c ∷ s) = elim (is_digit_of c) [
  | true ↦ digits_value (wrap64 (wrap64 (n *ℤ pos 10) +ℤ pos (c - b'0'))) s
  | false ↦ none
]

abbrev positive : Option ℤ → Option ℤ
positive none = none
positive (some n) = if ltb_ℤ (pos 0) n then some n else none

-- `parsePositiveInt`
unfoldable pub parse_positive_int : Bytes → Option ℤ
parse_positive_int [] = none
parse_positive_int (c ∷ s) = positive (digits_value (pos 0) (c ∷ s))

-- a limit that is no positive number is passed over
abbrev limit_or_default : Option ℤ → ℤ
limit_or_default none = pos 50
limit_or_default (some n) = n

abbrev pub limit_of : Bytes → ℤ
limit_of [] = pos 50
limit_of (c ∷ s) = limit_or_default (parse_positive_int (c ∷ s))

abbrev pub page_to_response : List Entry × Bytes → LedgerPageResponse
page_to_response (entries, next) = record {
  entries = map ledger_entry_to_response entries;
  next_cursor = next;
}

module _ {S : Type 0} (P : Ports S) (parse_uuid : String → Option Uuid) where
  -- `OpenWallet` behind its checks
  unfoldable pub open_checked :
      OpenWalletRequest → Clock → Uuid → Money → S → Reply WalletResponse × S
  open_checked req clock player_id balance s =
      let (id, s') = P.new_v7 s in
      elim id [
        | err e ↦ (refused 500 "open_wallet_failed", s')
        | ok correlation_id ↦ reply_to 201 "open_wallet_failed" (opened_response req clock) (
            OpenWallet.execute P
              (record {
                player_id = player_id;
                initial_balance = balance;
                correlation_id = correlation_id;
                now = clock.now;
              })
              s')
      ]

  unfoldable pub open_balance :
      OpenWalletRequest → Clock → Uuid → Result Money → S → Reply WalletResponse × S
  open_balance req clock player_id (err e) s = (refused 400 "invalid_request", s)
  open_balance req clock player_id (ok balance) s =
      if is_negative balance
      then (refused 400 "invalid_request", s)
      else open_checked req clock player_id balance s

  unfoldable pub open_player :
      OpenWalletRequest → Clock → Option Uuid → S → Reply WalletResponse × S
  open_player req clock none s = (refused 400 "invalid_request", s)
  open_player req clock (some player_id) s =
      open_balance req clock player_id (initial_balance req) s

  -- `OpenWallet`
  unfoldable pub open_wallet : Clock → Result OpenWalletRequest → S → Reply WalletResponse × S
  open_wallet clock (err e) s = (refused 400 "invalid_request", s)
  open_wallet clock (ok req) s = open_player req clock (parse_uuid req.player_id) s

  -- a path parameter that is no identifier
  abbrev with_id : {B : Type 0} → Option Uuid → (Uuid → S → Reply B × S) → S → Reply B × S
  with_id none f s = (refused 400 "invalid_request", s)
  with_id (some id) f s = f id s

  -- `GetWallet`
  unfoldable pub show_wallet : String → S → Reply WalletResponse × S
  show_wallet wallet_id =
      with_id (parse_uuid wallet_id)
        λ id s. reply_to 200 "wallet_lookup_failed" wallet_to_response (get_wallet P id s)

  -- `GetWalletLedger`
  unfoldable pub show_ledger :
      ListByWallet S → String → Bytes → Bytes → S → Reply LedgerPageResponse × S
  show_ledger list_by_wallet wallet_id cursor limit = with_id (parse_uuid wallet_id) λ id s.
      reply_to 200 "ledger_lookup_failed" page_to_response
        (get_ledger_page P list_by_wallet id cursor (limit_of limit) s)

  -- `Reconcile`
  unfoldable pub reconcile : String → S → Reply ReconciliationResponse × S
  reconcile wallet_id = with_id (parse_uuid wallet_id) λ id s.
      reply_to 200 "reconciliation_failed" reconciliation_to_response (Reconcile.execute P id s)
