-- ===== src/Invariants/Answer.antt =====
-- internal/application/process_wager_transaction.go: the answer of `Execute` says what happened to the
-- money.
use wager_service.Base.{arith, ℕ, ◌≡◌, refl, Option, none, some, List, inl, inr}
use wager_service.Ids.{Uuid, Time}
use wager_service.Errors.{Result, ok, err, insufficient_balance, FailureCode}
use wager_service.Money.Arithmetic.{Fits}
use wager_service.Wallet
use wager_service.Wallet.{Wallet, Movement}
use wager_service.Wager.{
  Transaction, Kind, bet, win, loss, refund, rollback, no_kind, mark_pending_reference,
  pending_reference,
}
use wager_service.Ledger.{debit, credit}
use wager_service.Ports.{M}
use wager_service.Postgres.{postgres}
use wager_service.Postgres.Database.{Db, World, LedgerRow}
use wager_service.Postgres.Wallets
use wager_service.Process.Kinds.{
  finish_bet, process_bet, process_win, attach_win_reference, process_loss, park, finish_reversal,
  move_by, reverse, reverse_found, process_reversal, dispatch,
}
use wager_service.Process.Request.{Command, ProcessResult}
use wager_service.Process.Reversal.{validate_reversal_reference, reversal_direction}
use wager_service.Process.Matching.{validate-Matches}
use wager_service.Process.Outcome.{reject_and_save}
use wager_service.Invariants.Triple.{Leads, Keeps-read, Reads-or_nil, keeps_rules}
use wager_service.Invariants.Stable.{
  Found, append_processed_event-Keeps, append_pending_reference_event-Keeps,
}
use wager_service.Invariants.Reads.{
  find_wallet-Reads, find_external-Reads, count-Reads, find_wallet-looks,
}
use wager_service.Invariants.Gives.{
  Gives, Gives-fail, Gives-pure, Gives-if, Gives-bind, Gives-lift, Gives-found,
}
use wager_service.Invariants.Effect.{
  Effect, Way, Still, Still-Records, commit_movement-Gives, reject_and_save-Gives,
}

-- What holds without the wallet at hand.
Gives-Found :
    {A : Type 0} {I : Db → Type 0} {Q : A → Db → Type 0} (id : Uuid) (w₀ : Wallet) {m : M World A}
    → Gives I m Q
    → Gives (Found I id w₀) m Q
Gives-Found id w₀ k = record { at = λ w h. k.at w h.0 }

module _ (v7 : ℕ → Uuid) (wallets₀ : List Wallet) (ledger₀ : List LedgerRow) (cmd : Command)
    (fits : Fits cmd.amount) where
  abbrev I : Db → Type 0
  I = Still v7 wallets₀ ledger₀ cmd

  abbrev Q : ProcessResult → Db → Type 0
  Q = Effect wallets₀ ledger₀ cmd

  finish_bet-Gives :
      (tx : Transaction) (w₀ : Wallet) (r : Result (Movement × Wallet))
      → cmd.kind ≡ bet
      → Wallet.debit w₀ cmd.amount cmd.now ≡ r
      → Gives (Found I cmd.wallet_id w₀) (finish_bet (postgres v7) tx cmd w₀.version r) Q
  unfolding finish_bet
  finish_bet-Gives tx w₀ (ok (mv, w)) k e =
      commit_movement-Gives v7 wallets₀ ledger₀ cmd tx w₀ w mv debit fits (rw k refl) e
  finish_bet-Gives tx w₀ (err insufficient_balance) k e =
      Gives-Found cmd.wallet_id w₀ (reject_and_save-Gives v7 wallets₀ ledger₀ cmd tx _)
  finish_bet-Gives tx w₀ (err _) k e = Gives-fail _

  process_bet-Gives :
      (tx : Transaction) → cmd.kind ≡ bet → Gives I (process_bet (postgres v7) tx cmd) Q
  unfolding process_bet
  process_bet-Gives tx k =
      Gives-found (Wallets.lookup cmd.wallet_id) _ _ (find_wallet-looks cmd.wallet_id)
        λ w. finish_bet-Gives tx w _ k refl

  attach-Keeps :
      (J : Db → Type 0) (tx : Transaction) → Leads J (attach_win_reference (postgres v7) tx cmd) J
  unfolding attach_win_reference
  attach-Keeps J tx = search (keeps_rules, find_external-Reads)

  process_win-Gives :
      (tx : Transaction) → cmd.kind ≡ win → Gives I (process_win (postgres v7) tx cmd) Q
  unfolding process_win
  process_win-Gives tx k =
      Gives-found (Wallets.lookup cmd.wallet_id) _ _ (find_wallet-looks cmd.wallet_id) λ w.
        Gives-lift _ _ λ moved e. Gives-bind _ _ (attach-Keeps _ tx) λ tx'.
          commit_movement-Gives v7 wallets₀ ledger₀ cmd tx' w moved.1 moved.0 credit fits
            (rw k refl) e

  process_loss-Gives :
      (tx : Transaction) → cmd.kind ≡ loss → Gives I (process_loss (postgres v7) tx cmd) Q
  unfolding process_loss
  process_loss-Gives tx k = Gives-bind _ _ (Keeps-read _ (find_wallet-Reads _)) λ w.
      Gives-lift _ _ λ tx' _.
        Gives-bind _ _ ((Still-Records v7 wallets₀ ledger₀ cmd).tx_save tx') λ _.
          Gives-bind _ _
            (append_processed_event-Keeps v7 (Still-Records v7 wallets₀ ledger₀ cmd).outbox_append
              tx' cmd)
            λ _. Gives-pure _ (λ db same. inl (inr (inr (inr k)), same))

  parked_status :
      (at : Time) (tx tx' : Transaction)
      → mark_pending_reference at tx ≡ ok tx'
      → tx'.status ≡ pending_reference
  unfolding mark_pending_reference
  parked_status at tx tx' e = ground arith

  park-Gives : (tx : Transaction) → Gives I (park (postgres v7) tx cmd) Q
  unfolding park
  park-Gives tx = Gives-lift _ _ λ tx' marked.
      Gives-bind _ _ ((Still-Records v7 wallets₀ ledger₀ cmd).tx_save tx') λ _.
        Gives-bind _ _
          (append_pending_reference_event-Keeps v7
            (Still-Records v7 wallets₀ ledger₀ cmd).outbox_append tx' cmd)
          λ _.
            Gives-pure _ (λ db same.
              inl (inr (inr (inl (rw (parked_status cmd.now tx tx' marked) refl))), same))

  finish_reversal-Gives :
      (tx ref : Transaction) (w₀ : Wallet) (r : Result (Movement × Wallet))
      → Way cmd.kind (reversal_direction ref.kind)
      → move_by (reversal_direction ref.kind) w₀ cmd.amount cmd.now ≡ r
      → Gives (Found I cmd.wallet_id w₀) (finish_reversal (postgres v7) tx cmd ref w₀.version r) Q
  unfolding finish_reversal
  finish_reversal-Gives tx ref w₀ (ok (mv, w)) way e = Gives-lift _ _ λ tx' _.
      commit_movement-Gives v7 wallets₀ ledger₀ cmd tx' w₀ w mv (reversal_direction ref.kind) fits
        way e
  finish_reversal-Gives tx ref w₀ (err insufficient_balance) way e =
      Gives-Found cmd.wallet_id w₀ (reject_and_save-Gives v7 wallets₀ ledger₀ cmd tx _)
  finish_reversal-Gives tx ref w₀ (err _) way e = Gives-fail _

  reverse-Gives :
      (tx ref : Transaction)
      → Way cmd.kind (reversal_direction ref.kind)
      → Gives I (reverse (postgres v7) tx cmd ref) Q
  unfolding reverse
  reverse-Gives tx ref way = Gives-bind _ _ (Keeps-read _ (count-Reads _ _)) λ refunds.
      Gives-bind _ _ (Keeps-read _ (count-Reads _ _)) λ rollbacks.
        Gives-if _ _ _ (reject_and_save-Gives v7 wallets₀ ledger₀ cmd tx _) (
          Gives-found (Wallets.lookup cmd.wallet_id) _ _ (find_wallet-looks cmd.wallet_id)
            λ w. finish_reversal-Gives tx ref w _ way refl)

  validated-Gives :
      (tx ref : Transaction) (o : Option FailureCode)
      → (o ≡ none → Way cmd.kind (reversal_direction ref.kind))
      → Gives I
          (elim o [
            | some code ↦ reject_and_save (postgres v7) tx cmd code
            | none ↦ reverse (postgres v7) tx cmd ref
          ])
          Q
  validated-Gives tx ref (some code) way = reject_and_save-Gives v7 wallets₀ ledger₀ cmd tx code
  validated-Gives tx ref none way = reverse-Gives tx ref (way refl)

  -- the expected kinds of the two reversals, with what their references allow
  abbrev Reverses : Kind → Type 0
  Reverses expected =
      (ref : Transaction)
      → validate_reversal_reference cmd ref expected ≡ none
      → Way cmd.kind (reversal_direction ref.kind)

  reverse_found-Gives :
      (tx : Transaction) (expected : Kind) (o : Option Transaction)
      → Reverses expected
      → Gives I (reverse_found (postgres v7) tx cmd expected o) Q
  unfolding reverse_found
  reverse_found-Gives tx expected none way = park-Gives tx
  reverse_found-Gives tx expected (some ref) way =
      validated-Gives tx ref (validate_reversal_reference cmd ref expected) (way ref)

  process_reversal-Gives :
      (tx : Transaction) (expected : Kind)
      → Reverses expected
      → Gives I (process_reversal (postgres v7) tx cmd expected) Q
  unfolding process_reversal
  process_reversal-Gives tx expected way =
      Gives-bind _ _ (Keeps-read _ (Reads-or_nil _ (find_external-Reads _ _)))
        λ o. reverse_found-Gives tx expected o way

  refund-Reverses : cmd.kind ≡ refund → Reverses bet
  unfolding reversal_direction
  refund-Reverses k ref v = rw (k, ((validate-Matches cmd ref).0.0 v).0) refl

  pub dispatch-Gives :
      (tx : Transaction) (k : Kind) → cmd.kind ≡ k → Gives I (dispatch (postgres v7) tx cmd k) Q
  unfolding dispatch
  dispatch-Gives tx bet k = process_bet-Gives tx k
  dispatch-Gives tx win k = process_win-Gives tx k
  dispatch-Gives tx loss k = process_loss-Gives tx k
  dispatch-Gives tx refund k = process_reversal-Gives tx bet (refund-Reverses k)
  dispatch-Gives tx rollback k = process_reversal-Gives tx no_kind (λ ref v. rw k tt)
  dispatch-Gives tx _ k = Gives-fail _
