-- ===== src/Transport.antt =====
-- internal/infra/transport/wager_request.go: from a request's texts to a command. `uuid.Parse` is a
-- parameter. The errors of this function wrap no sentinel but those of `money`.
pub mod Range
use wager_service.Base.{Bool, not, ◌||◌, String, Option, none, some, codes, str_eq, if◌then◌else◌}
use wager_service.Ids.{Uuid, Time}
use wager_service.Errors.{Result, ok, err, ◌>>=◌, ◌>>◌, refuse_if, invalid_request}
use wager_service.Money.{or_fail, parse_external_amount}
use wager_service.Wager.{
  Kind, opening, bet, win, loss, refund, rollback, other, is_external, is_blank,
}
use wager_service.Process.Request.{Command, InboxDedup}

pub record WagerOperationRequest : Type 0 where
  pub external_transaction_id : String
  pub idempotency_key : String
  pub player_id : String
  pub wallet_id : String
  pub round_id : String
  pub game_id : String
  pub kind : String
  pub amount : String
  pub currency : String
  pub reference_external_transaction_id : String

-- `wager.Kind(s)`
abbrev pub kind_of : String → Kind
kind_of s =
    if str_eq s "OPENING"
    then opening
    else if str_eq s "BET"
    then bet
    else if str_eq s "WIN"
    then win
    else if str_eq s "LOSS"
    then loss
    else if str_eq s "REFUND"
    then refund
    else if str_eq s "ROLLBACK"
    then rollback
    else other s

-- `ToCommand`
unfoldable pub to_command :
    (String → Option Uuid)
    → WagerOperationRequest
    → String
    → Time
    → Uuid
    → Option InboxDedup
    → Result Command
to_command parse_uuid req provider_id now correlation_id inbox = do
  refuse_if (is_blank provider_id) invalid_request
  refuse_if (is_blank req.external_transaction_id || is_blank req.idempotency_key) invalid_request
  player_id ← or_fail (parse_uuid req.player_id) invalid_request
  wallet_id ← or_fail (parse_uuid req.wallet_id) invalid_request
  refuse_if (not (is_external (kind_of req.kind))) invalid_request
  amount ← parse_external_amount (codes req.amount) req.currency
  ok (record {
    provider_id = provider_id;
    external_transaction_id = req.external_transaction_id;
    idempotency_key = req.idempotency_key;
    player_id = player_id;
    wallet_id = wallet_id;
    round_id = req.round_id;
    game_id = req.game_id;
    kind = kind_of req.kind;
    amount = amount;
    reference_external_transaction_id = req.reference_external_transaction_id;
    correlation_id = correlation_id;
    now = now;
    inbox = inbox;
  })
