-- ===== src/Idempotency/Reference.antt =====
-- internal/application/process_wager_transaction.go: the row that a refund or a rollback refers to, as
-- `processReversal` looks it up.
use wager_service.Base.{
  arith, ◌≡◌, refl, Bool, false, String, Option, none, some, List, [], ◌∷◌, ◌++◌, find, ◌⊎◌, inl,
  inr, ap, sym, subst, ◌∙◌,
}
use wager_service.Ids.{is_nil}
use wager_service.Errors.{Result, ok, err, not_found}
use wager_service.Wager
use wager_service.Wager.{
  Transaction, Status, pending, processed, Kind, bet, win, loss, refund, rollback, no_kind,
  attach_resolved_reference,
}
use wager_service.Ports.{or_nil, nil_if_missing}
use wager_service.Postgres.Database.{Db, World, TxRow}
use wager_service.Postgres.Transactions
use wager_service.Postgres.Transactions.{
  row_of, reverses, has_external_id, scan_found, rehydrate_row,
}
use wager_service.Process.Request.{Command}
use wager_service.Idempotency.Rows.{Open}
use wager_service.Idempotency.Outcome.{Named}

pending_or_processed : {s s' : Status} → s ≡ processed → s' ≡ s → s' ≡ pending → ⊥
pending_or_processed e f g = cc

-- what `processReversal` looks up
abbrev pub looked_up : Command → Db → Result (Option Transaction)
looked_up cmd db = nil_if_missing (
    scan_found (
      find (has_external_id cmd.provider_id cmd.reference_external_transaction_id) db.transactions))

pub reference-looks :
    (cmd : Command) (w : World)
    → or_nil
        (Transactions.find_by_provider_and_external_id cmd.provider_id
          cmd.reference_external_transaction_id)
        w
      ≡ (looked_up cmd w.db, w)
unfolding or_nil Transactions.find_by_provider_and_external_id
reference-looks cmd w = refl

missing-none :
    (r : Result Transaction) (t : Transaction) → nil_if_missing r ≡ ok (some t) → r ≡ ok t
missing-none (ok t') t e = cc
missing-none (err not_found) t e = cc
missing-none (err _) t e = cc

-- The rehydrated transaction has the row's identifier and status.
read-row :
    (row : TxRow) (t : Transaction)
    → rehydrate_row row ≡ ok t
    → (t.id ≡ row.id) × (is_nil row.id ≡ false) × (t.status ≡ row.status)
unfolding rehydrate_row Wager.rehydrate
read-row row t e = ground arith

find-append :
    (p : TxRow → Bool) (rows : List TxRow) (own row : TxRow)
    → find p (rows ++ own ∷ []) ≡ some row
    → (find p rows ≡ some row) ⊎ (own ≡ row)
unfolding find
find-append p [] own row e = ground arith
find-append p (x ∷ rows) own row e = ground (arith, find-append p rows own row)

-- A processed row that is found is not the one just created, so it was there before.
Named-before :
    (rows₀ : List TxRow) (cmd : Command) (tx t : Transaction) (o : Option TxRow)
    → tx.status ≡ pending
    → find
        (has_external_id cmd.provider_id cmd.reference_external_transaction_id)
        (rows₀ ++ row_of tx ∷ [])
      ≡ o
    → scan_found o ≡ ok t
    → t.status ≡ processed
    → Named rows₀ cmd t.id
Named-before rows₀ cmd tx t none unsettled e scanned done = absurd cc
Named-before rows₀ cmd tx t (some row) unsettled e scanned done =
    let (id, real, status) = read-row row t scanned in
    elim (find-append (has_external_id cmd.provider_id cmd.reference_external_transaction_id) rows₀
      (row_of tx) row e) [
        | inl found ↦ record { row = row; found = found; real = real; same = id }
        | inr own ↦
            absurd (pending_or_processed (sym status ∙ done) (ap (λ r. r.status) own) unsettled)
      ]

pub Named-found :
    (rows₀ : List TxRow) (cmd : Command) (hash : String) (tx : Transaction)
    → Open rows₀ cmd hash tx
    → (rows : List TxRow) (t : Transaction) → rows ≡ rows₀ ++ row_of tx ∷ []
    → nil_if_missing (
        scan_found
          (find (has_external_id cmd.provider_id cmd.reference_external_transaction_id) rows))
      ≡ ok (some t)
    → t.status ≡ processed
    → Named rows₀ cmd t.id
Named-found rows₀ cmd hash tx o rows t shape looked done =
    Named-before rows₀ cmd tx t _ o.unsettled refl
      (subst
        (λ rows.
          scan_found
            (find (has_external_id cmd.provider_id cmd.reference_external_transaction_id) rows)
          ≡ ok t)
        shape (missing-none _ t looked))
      done
