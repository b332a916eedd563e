-- ===== src/Transport/Range.antt =====
-- internal/infra/transport/wager_request.go: the amount of a command that comes from a request.
use wager_service.Base.{
  ℕ, codes, ◌≡◌, refl, sym, Bool, true, false, not, ◌||◌, String, Option, none, some,
}
use wager_service.Base.Int.{pos}
use wager_service.Ids.{Uuid, Time}
use wager_service.Errors.{◌>>◌, refuse_if, invalid_request, Result, ok, err, ◌>>=◌}
use wager_service.Money.{Money, parse_external_amount, or_fail}
use wager_service.Money.Reading.{Spells, external-reads}
use wager_service.Money.Arithmetic.{Fits}
use wager_service.Wager.{is_external, is_blank}
use wager_service.Process.Request.{Command, InboxDedup}
use wager_service.Transport.{WagerOperationRequest, to_command, kind_of}

ok-inj : {A : Type 0} (a b : A) → ok a ≡ ok b → a ≡ b
ok-inj a b e = cc

-- the chain of checks of `ToCommand`, over what each of them found
assembled-inv :
    (b₁ b₂ : Bool) (p w : Option Uuid) (b₃ : Bool) (r : Result Money)
    (f : Uuid → Uuid → Money → Command) (cmd : Command)
    → (do
      refuse_if b₁ invalid_request
      refuse_if b₂ invalid_request
      player ← or_fail p invalid_request
      wallet ← or_fail w invalid_request
      refuse_if b₃ invalid_request
      amount ← r
      ok (f player wallet amount))
      ≡ ok cmd
    → (player : Uuid) × (wallet : Uuid) × (amount : Money) × (b₁ ≡ false)
      × (b₂ ≡ false)
      × (b₃ ≡ false)
      × (r ≡ ok amount)
      × (f player wallet amount ≡ cmd)
assembled-inv false false (some p) (some w) false (ok a) f cmd e =
    (p, w, a, refl, refl, refl, refl, ok-inj _ _ e)
assembled-inv false false (some p) (some w) false (err x) f cmd e = cc
assembled-inv false false (some p) (some w) true r f cmd e = cc
assembled-inv false false (some p) none b₃ r f cmd e = cc
assembled-inv false false none w b₃ r f cmd e = cc
assembled-inv false true p w b₃ r f cmd e = cc
assembled-inv true b₂ p w b₃ r f cmd e = cc

-- the amount of the command
to_command-amount :
    (parse_uuid : String → Option Uuid) (req : WagerOperationRequest) (provider_id : String)
    (now : Time) (correlation_id : Uuid) (inbox : Option InboxDedup) (cmd : Command)
    → to_command parse_uuid req provider_id now correlation_id inbox ≡ ok cmd
    → parse_external_amount (codes req.amount) req.currency ≡ ok cmd.amount
unfolding to_command
to_command-amount parse_uuid req provider_id now correlation_id inbox cmd e =
    let (player, wallet, amount, b₁, b₂, b₃, got, same) =
      assembled-inv (is_blank provider_id)
        (is_blank req.external_transaction_id || is_blank req.idempotency_key)
        (parse_uuid req.player_id) (parse_uuid req.wallet_id) (not (is_external (kind_of req.kind)))
        (parse_external_amount (codes req.amount) req.currency) _ cmd e in
    rw (sym same) got

-- A command that `ToCommand` makes of a request has the amount that the request's text spells: the text is
-- perhaps a minus sign, then digits, a point and two digits, and the minor units are exactly the number
-- that the digits make without the point, so that nothing was lost or wrapped around. The currency is the
-- request's, and the amount is an `int64`, as the theorems on the use cases ask for.
pub to_command-Fits :
    (parse_uuid : String → Option Uuid) (req : WagerOperationRequest) (provider_id : String)
    (now : Time) (correlation_id : Uuid) (inbox : Option InboxDedup) (cmd : Command)
    → to_command parse_uuid req provider_id now correlation_id inbox ≡ ok cmd
    → Fits cmd.amount
      × (cmd.amount.currency ≡ req.currency)
      × (n : ℕ) × Spells (codes req.amount) n
      × (cmd.amount.minor_units ≡ pos n)
to_command-Fits parse_uuid req provider_id now correlation_id inbox cmd e =
    let (n, spells, is, fits, same) =
      external-reads (codes req.amount) req.currency cmd.amount
        (to_command-amount parse_uuid req provider_id now correlation_id inbox cmd e) in
    (fits, same, n, spells, is)
