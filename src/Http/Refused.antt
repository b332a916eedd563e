-- ===== src/Http/Refused.antt =====
-- internal/infra/http/handlers.go over the transaction manager of internal/infra/postgres/tx.go: what an answer
-- that is an error has done to the database.
use wager_service.Base.{
  ℕ, ◌≡◌, refl, sym, subst, Bool, true, false, String, Option, none, some, if◌then◌else◌,
}
use wager_service.Ids.{Uuid, Time}
use wager_service.Errors.{
  Error, Result, ok, err, idempotency_key_reused, external_transaction_key_mismatch,
}
use wager_service.Money.{Money, is_negative}
use wager_service.Wager.{is_blank}
use wager_service.Postgres.{postgres}
use wager_service.Postgres.Database.{Db, World}
use wager_service.Process.{execute}
use wager_service.Process.Request.{Command, CanonicalPayload, ProcessResult}
use wager_service.OpenWallet
use wager_service.OpenWallet.{OpenWalletCommand, OpenWalletResult}
use wager_service.Transport.{WagerOperationRequest, to_command}
use wager_service.Http.Responses.{Reply}
use wager_service.Http.Wallets.{
  OpenWalletRequest, Clock, reply_to, initial_balance, opened_response, open_checked, open_balance,
  open_player, open_wallet,
}
use wager_service.Http.{respond, submit_command, submit_request, submit_body, submit}
use wager_service.Http.Money.{execute-err, settled_err}

abbrev KeptIfNone : {B : Type 0} → Option B → Db → Db → Type 0
KeptIfNone none db db' = db' ≡ db
KeptIfNone (some b) db db' = Unit

-- An answer with no body goes with a database that is as it was, in all five tables.
abbrev pub Unharmed : {B : Type 0} → World → Reply B × World → Type 0
Unharmed w (reply, w') = KeptIfNone reply.body w.db w'.db

respond_err : (e : Error) → (respond (err e)).body ≡ none
unfolding respond
respond_err idempotency_key_reused = refl
respond_err external_transaction_key_mismatch = refl
respond_err _ = refl

if-Unharmed :
    {B : Type 0} (b : Bool) (w : World) (p q : Reply B × World)
    → Unharmed w p
    → Unharmed w q
    → Unharmed w (if b then p else q)
if-Unharmed true w p q h k = h
if-Unharmed false w p q h k = k

module _ (v7 : ℕ → Uuid) (canonical_hash : CanonicalPayload → Result String)
    (parse_uuid : String → Option Uuid) where
  responded-Unharmed :
      (w w' : World) (r : Result ProcessResult)
      → ((e : Error) → r ≡ err e → w'.db ≡ w.db)
      → Unharmed w (respond r, w')
  unfolding respond
  responded-Unharmed w w' (ok r) h = tt
  responded-Unharmed w w' (err e) h =
      subst (λ o. KeptIfNone o w.db w'.db) (sym (respond_err e)) (h e refl)

  replied-Unharmed :
      {A B : Type 0} (status : ℕ) (code : String) (body : A → B) (w w' : World) (r : Result A)
      → ((e : Error) → r ≡ err e → w'.db ≡ w.db)
      → Unharmed w (reply_to status code body (r, w'))
  replied-Unharmed status code body w w' (ok a) h = tt
  replied-Unharmed status code body w w' (err e) h = h e refl

  command-Unharmed :
      (r : Result Command) (w : World)
      → Unharmed w (submit_command (postgres v7) canonical_hash parse_uuid r w)
  unfolding submit_command
  command-Unharmed (err e) w = refl
  command-Unharmed (ok cmd) w =
      responded-Unharmed w (execute (postgres v7) canonical_hash cmd w).1
        (execute (postgres v7) canonical_hash cmd w).0
        (λ e h. execute-err v7 canonical_hash cmd w e h)

  request-Unharmed :
      (provider_id : String) (now : Time) (req : WagerOperationRequest) (w : World)
      → Unharmed w (submit_request (postgres v7) canonical_hash parse_uuid provider_id now req w)
  unfolding submit_request
  request-Unharmed provider_id now req w =
      command-Unharmed (to_command parse_uuid req provider_id now (v7 w.drawn) none) _

  body-Unharmed :
      (provider_id key : String) (now : Time) (r : Result WagerOperationRequest) (w : World)
      → Unharmed w (submit_body (postgres v7) canonical_hash parse_uuid provider_id key now r w)
  unfolding submit_body
  body-Unharmed provider_id key now (ok req) w = request-Unharmed provider_id now _ w
  body-Unharmed provider_id key now (err e) w = refl

  submit-Unharmed :
      (provider : Option String) (key : String) (now : Time) (body : Result WagerOperationRequest)
      (w : World)
      → Unharmed w (submit (postgres v7) canonical_hash parse_uuid provider key now body w)
  unfolding submit
  submit-Unharmed none key now body w = refl
  submit-Unharmed (some provider_id) key now body w =
      if-Unharmed (is_blank provider_id) w _ _ refl (body-Unharmed provider_id key now body w)

  opened-err :
      (cmd : OpenWalletCommand) (w : World) (e : Error)
      → (OpenWallet.execute (postgres v7) cmd w).0 ≡ err e
      → (OpenWallet.execute (postgres v7) cmd w).1.db ≡ w.db
  unfolding OpenWallet.execute
  opened-err cmd w e h =
      let (r, w') = OpenWallet.execute_body (postgres v7) cmd w in settled_err w r w' e h

  checked-Unharmed :
      (req : OpenWalletRequest) (clock : Clock) (player_id : Uuid) (balance : Money) (w : World)
      → Unharmed w (open_checked (postgres v7) parse_uuid req clock player_id balance w)
  unfolding open_checked
  checked-Unharmed req clock player_id balance w =
      replied-Unharmed 201 "open_wallet_failed" (opened_response req clock) w _ _
        (λ e h. opened-err _ _ e h)

  balance-Unharmed :
      (req : OpenWalletRequest) (clock : Clock) (player_id : Uuid) (r : Result Money) (w : World)
      → Unharmed w (open_balance (postgres v7) parse_uuid req clock player_id r w)
  unfolding open_balance
  balance-Unharmed req clock player_id (err e) w = refl
  balance-Unharmed req clock player_id (ok balance) w =
      if-Unharmed (is_negative balance) w _ _ refl (checked-Unharmed req clock player_id balance w)

  player-Unharmed :
      (req : OpenWalletRequest) (clock : Clock) (o : Option Uuid) (w : World)
      → Unharmed w (open_player (postgres v7) parse_uuid req clock o w)
  unfolding open_player
  player-Unharmed req clock none w = refl
  player-Unharmed req clock (some player_id) w =
      balance-Unharmed req clock player_id (initial_balance req) w

  opening-Unharmed :
      (clock : Clock) (body : Result OpenWalletRequest) (w : World)
      → Unharmed w (open_wallet (postgres v7) parse_uuid clock body w)
  unfolding open_wallet
  opening-Unharmed clock (err e) w = refl
  opening-Unharmed clock (ok req) w = player-Unharmed req clock (parse_uuid req.player_id) w

  -- The two handlers that write, whatever the request and the database are: an operation or a new wallet
  -- that is answered with an error has changed nothing, in no table: the wallets, the transactions, the
  -- ledger, the inbox and the outbox are as they were, however far the use case had come.
  pub handlers-Unharmed :
      (provider : Option String) (key : String) (now : Time) (body : Result WagerOperationRequest)
      (clock : Clock) (opening : Result OpenWalletRequest) (w : World)
      → Unharmed w (submit (postgres v7) canonical_hash parse_uuid provider key now body w)
        × Unharmed w (open_wallet (postgres v7) parse_uuid clock opening w)
  handlers-Unharmed provider key now body clock opening w =
      (submit-Unharmed provider key now body w, opening-Unharmed clock opening w)
