-- ===== src/Wager/Lifecycle.antt =====
-- internal/domain/wager/transaction.go: the life of a transaction under the methods that change it.
use wager_service.Base.{arith, ◌≡◌, refl, true, false, Option, none, List, [], ◌∷◌, inl, inr, ◌⊎◌}
use wager_service.Ids.{Uuid, Time}
use wager_service.Errors.{Result, ok, err, FailureCode, no_code, is_no_code, invalid_transition}
use wager_service.Money.{Money}
use wager_service.Wager.{
  Transaction, ExternalParams, Status, pending, pending_reference, processed, rejected, failed,
  is_terminal, new_external, attach_resolved_reference, mark_pending_reference, mark_processed,
  mark_rejected, mark_failed,
}

-- A call of one of the methods.
pub data Operation : Type 0 where
  attach : Uuid → Operation
  park : Time → Operation
  process : Money → Time → Operation
  reject : FailureCode → Time → Operation
  fail : FailureCode → Time → Operation

unfoldable pub apply : Operation → Transaction → Result Transaction
unfolding attach_resolved_reference mark_pending_reference mark_processed mark_rejected mark_failed
apply (attach id) t = attach_resolved_reference id t
apply (park at) t = mark_pending_reference at t
apply (process balance at) t = mark_processed balance at t
apply (reject code at) t = mark_rejected code at t
apply (fail code at) t = mark_failed code at t

abbrev kept_on : Transaction → Result Transaction → Transaction
kept_on t (ok t') = t'
kept_on t (err e) = t

-- A sequence of calls; one that is refused leaves the transaction as it was.
unfoldable pub run : List Operation → Transaction → Transaction
unfolding apply
run [] t = t
run (op ∷ ops) t = run ops (kept_on t (apply op t))

-- The state machine of the statuses.
pub data Step : Status → Status → Type 0 where
  parked : Step pending pending_reference
  settled : {s s' : Status} → is_terminal s ≡ false → is_terminal s' ≡ true → Step s s'

-- A status that steps lead to.
pub data Reaches (s : Status) : Status → Type 0 where
  here : Reaches s s
  then_step : {m e : Status} → Reaches s m → Step m e → Reaches s e

-- Every method refuses a transaction that is processed, rejected or failed with `ErrInvalidTransition`.
apply-terminal :
    (op : Operation) (t : Transaction)
    → is_terminal t.status ≡ true
    → apply op t ≡ err invalid_transition
unfolding apply
apply-terminal op t h = ground arith

park-status :
    (at : Time) (t t' : Transaction)
    → apply (park at) t ≡ ok t'
    → (t.status ≡ pending) × (t'.status ≡ pending_reference)
unfolding apply
park-status at t t' e = ground arith

-- what a call makes of a status
apply-Step :
    (op : Operation) (t t' : Transaction)
    → apply op t ≡ ok t'
    → (t'.status ≡ t.status) ⊎ Step t.status t'.status
unfolding apply
apply-Step (attach id) t t' e = inl (ground arith)
apply-Step (park at) t t' e =
    let (before, after) = park-status at t t' e in inr (rw (before, after) parked)
apply-Step (process balance at) t t' e = inr (settled (ground arith) (ground arith))
apply-Step (reject code at) t t' e = inr (settled (ground arith) (ground arith))
apply-Step (fail code at) t t' e = inr (settled (ground arith) (ground arith))

-- What a status promises of the other fields.
abbrev pub Promised : Status → Option Money → FailureCode → Type 0
Promised processed balance code = ¬ (balance ≡ none)
Promised rejected balance code = is_no_code code ≡ false
Promised failed balance code = is_no_code code ≡ false
Promised _ balance code = (balance ≡ none) × (code ≡ no_code)

abbrev pub Kept : Transaction → Type 0
Kept t = Promised t.status t.resulting_balance t.failure_code

apply-Kept : (op : Operation) (t t' : Transaction) → Kept t → apply op t ≡ ok t' → Kept t'
unfolding apply
apply-Kept op t t' k e = ground arith

kept_on-Kept :
    (t : Transaction) (r : Result Transaction)
    → Kept t
    → ((t' : Transaction) → r ≡ ok t' → Kept t')
    → Kept (kept_on t r)
kept_on-Kept t (ok t') k h = h t' refl
kept_on-Kept t (err e) k h = k

run-Kept_from : (ops : List Operation) (t : Transaction) → Kept t → Kept (run ops t)
unfolding run
run-Kept_from [] t k = k
run-Kept_from (op ∷ ops) t k =
    run-Kept_from ops (kept_on t (apply op t))
      (kept_on-Kept t (apply op t) k (λ t' e. apply-Kept op t t' k e))

one-Step : {s m e : Status} → Reaches s m → (e ≡ m) ⊎ Step m e → Reaches s e
one-Step r (inl same) = rw same r
one-Step r (inr step) = then_step r step

kept_on-Reaches :
    (s : Status) (op : Operation) (t : Transaction) (r : Result Transaction)
    → apply op t ≡ r
    → Reaches s t.status
    → Reaches s (kept_on t r).status
kept_on-Reaches s op t (ok t') e k = one-Step k (apply-Step op t t' e)
kept_on-Reaches s op t (err x) e k = k

run-Reaches_from :
    (s : Status) (ops : List Operation) (t : Transaction)
    → Reaches s t.status
    → Reaches s (run ops t).status
unfolding run
run-Reaches_from s [] t k = k
run-Reaches_from s (op ∷ ops) t k =
    run-Reaches_from s ops (kept_on t (apply op t)) (kept_on-Reaches s op t (apply op t) refl k)

fresh :
    (p : ExternalParams) (at : Time) (t : Transaction)
    → new_external p at ≡ ok t
    → (t.status ≡ pending) × Kept t
unfolding new_external
fresh p at t e = ground arith

-- A transaction that `NewExternal` returns, after any sequence of calls: its status is reached from
-- PENDING by steps of the state machine, and the fields keep what the status promises: a processed
-- transaction has a resulting balance, a rejected or failed one a failure code, an open one neither.
pub run-Kept :
    (p : ExternalParams) (at : Time) (ops : List Operation) (t : Transaction)
    → new_external p at ≡ ok t
    → Reaches pending (run ops t).status × Kept (run ops t)
run-Kept p at ops t e =
    let (status, kept) = fresh p at t e in
    (run-Reaches_from pending ops t (rw status here), run-Kept_from ops t kept)

-- Whatever is called on a processed, rejected or failed transaction, it stays as it is.
pub run-terminal :
    (ops : List Operation) (t : Transaction) → is_terminal t.status ≡ true → run ops t ≡ t
unfolding run
run-terminal [] t h = refl
run-terminal (op ∷ ops) t h = rw (apply-terminal op t h) (run-terminal ops t h)
