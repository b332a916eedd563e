-- ===== src/Http/Money.antt =====
-- internal/infra/http/handlers.go: which answers to a submitted operation can have moved money.
use wager_service.Base.{
  ℕ, ◌≡◌, refl, sym, ap, ◌∙◌, Bool, true, false, String, Option, none, some, inl, inr, ◌⊎◌,
  if◌then◌else◌,
}
use wager_service.Ids.{Uuid, Time}
use wager_service.Errors.{Error, Result, ok, err}
use wager_service.Money.Arithmetic.{Fits}
use wager_service.Ports.{M, lift, ◌>>=◌}
use wager_service.Postgres.{postgres, settle, within_tx}
use wager_service.Postgres.Database.{World}
use wager_service.Process.{execute, execute_body}
use wager_service.Process.Request.{Command, CanonicalPayload, ProcessResult, canonical_payload_from}
use wager_service.Wager.{is_blank}
use wager_service.Transport.{WagerOperationRequest, to_command}
use wager_service.Transport.Range.{to_command-Fits}
use wager_service.Invariants.Effect.{Effect, Same}
use wager_service.Invariants.Money.{execute-Effect}
use wager_service.Http.{Response, respond, submit_command, submit_request, submit_body, submit}

-- Only an answer 201 goes with a change of the wallets or the ledger.
abbrev pub OnlyCreated : World → Response × World → Type 0
OnlyCreated w (resp, w') =
    (resp.status ≡ 201) ⊎ Same w.db.wallets w.db.ledger w'.db.wallets w'.db.ledger

pub settled_err :
    {A : Type 0} (before : World) (r : Result A) (after : World) (e : Error)
    → (settle before r after).0 ≡ err e
    → (settle before r after).1.db ≡ before.db
settled_err before (ok a) after e h = cc
settled_err before (err x) after e h = refl

rolled_back :
    {A B : Type 0} (r : Result A) (body : A → M World B) (w : World) (e : Error)
    → ((lift r >>= λ a. within_tx (body a)) w).0 ≡ err e
    → ((lift r >>= λ a. within_tx (body a)) w).1.db ≡ w.db
unfolding ◌>>=◌ lift
rolled_back (ok a) body w e h = let (r, w') = body a w in settled_err w r w' e h
rolled_back (err x) body w e h = refl

pub execute-err :
    (v7 : ℕ → Uuid) (canonical_hash : CanonicalPayload → Result String) (cmd : Command) (w : World)
    (e : Error)
    → (execute (postgres v7) canonical_hash cmd w).0 ≡ err e
    → (execute (postgres v7) canonical_hash cmd w).1.db ≡ w.db
unfolding execute
execute-err v7 canonical_hash cmd w e h =
    rolled_back (canonical_hash (canonical_payload_from cmd))
      (λ hash. execute_body (postgres v7) cmd hash cmd.inbox) w e h

Same-db : (w w' : World) → w'.db ≡ w.db → Same w.db.wallets w.db.ledger w'.db.wallets w'.db.ledger
Same-db w w' e = (ap (λ db. db.wallets) e, ap (λ db. db.ledger) e)

-- a fresh answer is a 201
Effect-answer :
    (w w' : World) (cmd : Command) (r : ProcessResult)
    → Effect w.db.wallets w.db.ledger cmd r w'.db
    → OnlyCreated w (respond (ok r), w')
unfolding respond
Effect-answer w w' cmd r (inl (still, same)) = inr same
Effect-answer w w' cmd r (inr (fresh, moved)) = inl (rw fresh.1 refl)

if-OnlyCreated :
    (b : Bool) (w : World) (p q : Response × World)
    → OnlyCreated w p
    → OnlyCreated w q
    → OnlyCreated w (if b then p else q)
if-OnlyCreated true w p q h k = h
if-OnlyCreated false w p q h k = k

module _ (v7 : ℕ → Uuid) (canonical_hash : CanonicalPayload → Result String)
    (parse_uuid : String → Option Uuid) where
  answered :
      (cmd : Command) (w w' : World) (r : Result ProcessResult)
      → Fits cmd.amount
      → execute (postgres v7) canonical_hash cmd w ≡ (r, w')
      → OnlyCreated w (respond r, w')
  answered cmd w w' (ok r) fits e =
      Effect-answer w w' cmd r (execute-Effect v7 canonical_hash cmd w w' r fits e)
  answered cmd w w' (err x) fits e = inr (
      Same-db w w'
        (ap (λ p. p.1.db) (sym e) ∙ execute-err v7 canonical_hash cmd w x (ap (λ p. p.0) e)))

  command-OnlyCreated :
      (r : Result Command) (w : World)
      → ((cmd : Command) → r ≡ ok cmd → Fits cmd.amount)
      → OnlyCreated w (submit_command (postgres v7) canonical_hash parse_uuid r w)
  unfolding submit_command
  command-OnlyCreated (ok cmd) w fits =
      answered cmd w (execute (postgres v7) canonical_hash cmd w).1
        (execute (postgres v7) canonical_hash cmd w).0 (fits cmd refl) refl
  command-OnlyCreated (err e) w fits = inr (refl, refl)

  request-OnlyCreated :
      (provider_id : String) (now : Time) (req : WagerOperationRequest) (w : World)
      → OnlyCreated w (submit_request (postgres v7) canonical_hash parse_uuid provider_id now req w)
  unfolding submit_request
  request-OnlyCreated provider_id now req w =
      command-OnlyCreated (to_command parse_uuid req provider_id now (v7 w.drawn) none) _
        λ cmd e. (to_command-Fits parse_uuid req provider_id now (v7 w.drawn) none cmd e).0

  body-OnlyCreated :
      (provider_id key : String) (now : Time) (r : Result WagerOperationRequest) (w : World)
      → OnlyCreated w (submit_body (postgres v7) canonical_hash parse_uuid provider_id key now r w)
  unfolding submit_body
  body-OnlyCreated provider_id key now (ok req) w = request-OnlyCreated provider_id now _ w
  body-OnlyCreated provider_id key now (err e) w = inr (refl, refl)

  -- A provider's operation submitted over HTTP, whatever the request, the provider and the database are: if
  -- the answer is not 201, no wallet and no ledger entry has changed. So a replay (200), a refused request
  -- (400, 401), an idempotency conflict (409) and a failure (500) move no money.
  pub submit-OnlyCreated :
      (provider : Option String) (key : String) (now : Time) (body : Result WagerOperationRequest)
      (w : World)
      → OnlyCreated w (submit (postgres v7) canonical_hash parse_uuid provider key now body w)
  unfolding submit
  submit-OnlyCreated none key now body w = inr (refl, refl)
  submit-OnlyCreated (some provider_id) key now body w =
      if-OnlyCreated (is_blank provider_id) w _ _ (inr (refl, refl))
        (body-OnlyCreated provider_id key now body w)
