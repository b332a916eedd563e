-- ===== src/Invariants/Attempts.antt =====
-- internal/application/resolve_pending_references.go: the resolver on rows that are due, and an invariant of
-- the database.
use wager_service.Base.{
  ℕ, ◌+◌, ◌≡◌, refl, Bool, true, Option, none, some, List, [], ◌∷◌, All, if◌then◌else◌,
}
use wager_service.Base.Int.{ℤ}
use wager_service.Ids.{Uuid, Time}
use wager_service.Errors.{Error, Result, ok, err, FailureCode, insufficient_balance}
use wager_service.Money.Arithmetic.{Fits}
use wager_service.Invariants.Due.{HasInt64, AllFit, due-AllFit}
use wager_service.Wallet.{Wallet, Movement}
use wager_service.Wager.{Transaction}
use wager_service.Ports.{pure, ◌>>◌}
use wager_service.Postgres.{postgres}
use wager_service.Postgres.Database.{Db, World}
use wager_service.Postgres.Wallets
use wager_service.Postgres.Transactions
use wager_service.Process.Kinds.{move_by}
use wager_service.Process.Reversal.{validate_reversal_reference, reversal_direction}
use wager_service.Resolve.{
  PendingReferenceRetryPolicy, probe, expected_kind, reject_pending, reschedule_or_expire, settle,
  reverse, attempt_found, attempt_body, attempt, run_due, run_once,
}
use wager_service.Invariants.Triple.{
  Leads, Leads-fail, Leads-if, Leads-bind, Leads-lift, Leads-two, Leads-found, Keeps-bind,
  Keeps-lift, Keeps-read, keeps_rules, within_tx-keeps,
}
use wager_service.Invariants.Stable.{
  Stable, Found, Leads-Found, draw-Reads, append_processed_event-Keeps, append_rejected_event-Keeps,
  append_balance_changed_event-Keeps,
}
use wager_service.Invariants.Reads.{find_external-Reads, count-Reads, find_wallet-looks}

module _ (v7 : ℕ → Uuid) (policy : PendingReferenceRetryPolicy) {I : Db → Type 0}
    (stable : Stable I)
    (reschedules : (id : Uuid) (n : ℕ) (at : Time)
      → Leads I (Transactions.record_pending_reference_attempt id n at) I) where
  reject_pending-Keeps :
      (tx : Transaction) (code : FailureCode) (now : Time)
      → Leads I (reject_pending (postgres v7) policy tx code now) I
  unfolding reject_pending
  reject_pending-Keeps tx code now = search (
    keeps_rules,
    Keeps-lift,
    stable.records.tx_save,
    append_rejected_event-Keeps v7 stable.records.outbox_append,
  )

  rejected-Keeps :
      (tx : Transaction) (code : FailureCode) (now : Time) (b : Bool)
      → Leads I (do reject_pending (postgres v7) policy tx code now; pure b) I
  rejected-Keeps tx code now b = search (keeps_rules, reject_pending-Keeps)

  reschedule_or_expire-Keeps :
      (tx : Transaction) (now : Time) → Leads I (reschedule_or_expire (postgres v7) policy tx now) I
  unfolding reschedule_or_expire
  reschedule_or_expire-Keeps tx now = search (keeps_rules, reject_pending-Keeps, reschedules)

  settle-Leads :
      (tx ref : Transaction) (w₀ : Wallet) (now : Time) (r : Result (Movement × Wallet))
      → Fits tx.money
      → move_by (reversal_direction ref.kind) w₀ tx.money now ≡ r
      → Leads (Found I tx.wallet_id w₀) (settle (postgres v7) policy tx ref w₀.version now r) I
  unfolding settle
  settle-Leads tx ref w₀ now (err insufficient_balance) fits e =
      Leads-Found tx.wallet_id w₀ (rejected-Keeps tx _ now _)
  settle-Leads tx ref w₀ now (err _) fits e = Leads-fail _
  settle-Leads tx ref w₀ now (ok (mv, w)) fits e =
      Leads-bind _ _ (Keeps-read _ (draw-Reads v7)) λ entry_id. Leads-lift _ _ λ entry entered.
        Leads-two _ _ _
          (stable.move tx.wallet_id w₀ w entry (record {
            direction = reversal_direction ref.kind;
            amount = tx.money;
            at = now;
            movement = mv;
            entry_id = entry_id;
            transaction_id = tx.id;
            fits = fits;
            moved = e;
            entered = entered;
          }))
          (search
            (
              keeps_rules,
              Keeps-lift,
              stable.records.tx_save,
              append_processed_event-Keeps v7 stable.records.outbox_append,
              append_balance_changed_event-Keeps v7 stable.records.outbox_append,
            )
            depth 12)

  reverse-Keeps :
      (tx ref : Transaction) (now : Time)
      → Fits tx.money
      → Leads I (reverse (postgres v7) policy tx ref now) I
  unfolding reverse
  reverse-Keeps tx ref now fits = Keeps-bind _ _ (Keeps-read _ (count-Reads _ _)) λ refunds.
      Keeps-bind _ _ (Keeps-read _ (count-Reads _ _)) λ rollbacks.
        Leads-if _ _ _ (rejected-Keeps tx _ now _) (
          Leads-found (Wallets.lookup tx.wallet_id) _ _ (find_wallet-looks tx.wallet_id)
            λ w. settle-Leads tx ref w now _ fits refl)

  validated-Keeps :
      (tx ref : Transaction) (now : Time) (o : Option FailureCode)
      → Fits tx.money
      → Leads I
          (elim o [
            | some code ↦ do reject_pending (postgres v7) policy tx code now; pure true
            | none ↦ reverse (postgres v7) policy tx ref now
          ])
          I
  validated-Keeps tx ref now (some code) fits = rejected-Keeps tx code now _
  validated-Keeps tx ref now none fits = reverse-Keeps tx ref now fits

  attempt_found-Keeps :
      (tx : Transaction) (now : Time) (o : Option Transaction)
      → Fits tx.money
      → Leads I (attempt_found (postgres v7) policy tx now o) I
  unfolding attempt_found
  attempt_found-Keeps tx now none fits = reschedule_or_expire-Keeps tx now
  attempt_found-Keeps tx now (some ref) fits =
      validated-Keeps tx ref now (validate_reversal_reference (probe tx now) ref (expected_kind tx))
        fits

  attempt_body-Keeps :
      (tx : Transaction) (now : Time)
      → Fits tx.money
      → Leads I (attempt_body (postgres v7) policy tx now) I
  unfolding attempt_body
  attempt_body-Keeps tx now fits = search (keeps_rules, find_external-Reads, attempt_found-Keeps)

  attempt-keeps :
      (tx : Transaction) (now : Time) (w : World)
      → Fits tx.money
      → I w.db
      → I (attempt (postgres v7) policy tx now w).1.db
  unfolding attempt
  attempt-keeps tx now w fits h = within_tx-keeps _ (attempt_body-Keeps tx now fits) w h

  -- the loop of `RunOnce` after a transaction was tried
  abbrev went_on :
      List Transaction → Time → ℕ → ℕ → Result Bool → World → (ℕ × ℕ) × Option Error × World
  went_on due now resolved rescheduled r w = elim r [
    | err e ↦ ((resolved, rescheduled), some e, w)
    | ok did_resolve ↦
        run_due (postgres v7) policy due now
          (if did_resolve then (resolved + 1, rescheduled) else (resolved, rescheduled + 1)) w
  ]

  went_on-keeps :
      (due : List Transaction) (now : Time) (resolved rescheduled : ℕ) (r : Result Bool) (w : World)
      → ((counts : ℕ × ℕ) → I (run_due (postgres v7) policy due now counts w).2.db)
      → I w.db
      → I (went_on due now resolved rescheduled r w).2.db
  went_on-keeps due now resolved rescheduled (err e) w k h = h
  went_on-keeps due now resolved rescheduled (ok b) w k h = k _

  run_due-keeps :
      (due : List Transaction) (now : Time) (counts : ℕ × ℕ) (w : World)
      → All (λ tx. Fits tx.money) due
      → I w.db
      → I (run_due (postgres v7) policy due now counts w).2.db
  unfolding run_due
  run_due-keeps [] now counts w fits h = h
  run_due-keeps (tx ∷ due) now (resolved, rescheduled) w fits h =
      let (r, w') = attempt (postgres v7) policy tx now w in
      let kept = attempt-keeps tx now w fits.0 h in
      went_on-keeps due now resolved rescheduled r w'
        (λ counts. run_due-keeps due now counts w' fits.1 kept) kept

  -- `RunOnce` after the query
  abbrev listed : Time → Result (List Transaction) → World → (ℕ × ℕ) × Option Error × World
  listed now r w = elim r [
    | err e ↦ ((0, 0), some e, w)
    | ok due ↦ run_due (postgres v7) policy due now (0, 0) w
  ]

  listed-keeps :
      (now : Time) (w : World) (r : Result (List Transaction))
      → AllFit r
      → I w.db
      → I (listed now r w).2.db
  listed-keeps now w (err e) fits h = h
  listed-keeps now w (ok due) fits h = run_due-keeps due now (0, 0) w fits h

  run_once-listed :
      (now : Time) (n : ℤ) (w : World)
      → run_once (postgres v7) policy now n w
        ≡ listed now (Transactions.list_pending_reference_due now n w).0 w
  unfolding run_once Transactions.list_pending_reference_due
  run_once-listed now n w = refl

  -- One pass of the resolver, whatever rows are due.
  pub run_once-keeps :
      (now : Time) (n : ℤ) (w : World)
      → All HasInt64 w.db.transactions
      → I w.db
      → I (run_once (postgres v7) policy now n w).2.db
  run_once-keeps now n w fits h = rw (run_once-listed now n w) (
      listed-keeps now w (Transactions.list_pending_reference_due now n w).0
        (due-AllFit now n w fits) h)
