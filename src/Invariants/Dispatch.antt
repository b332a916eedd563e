-- ===== src/Invariants/Dispatch.antt =====
-- internal/application/process_wager_transaction.go: what is done for each kind of operation, and an invariant
-- of the database.
use wager_service.Base.{ℕ, ◌≡◌, refl, Option, none, some}
use wager_service.Ids.{Uuid}
use wager_service.Errors.{Result, ok, err, insufficient_balance, FailureCode}
use wager_service.Money.Arithmetic.{Fits}
use wager_service.Wallet
use wager_service.Wallet.{Wallet, Movement}
use wager_service.Wager.{Transaction, Kind, bet, win, loss, refund, rollback}
use wager_service.Ledger.{debit, credit}
use wager_service.Postgres.{postgres}
use wager_service.Postgres.Database.{Db}
use wager_service.Postgres.Wallets
use wager_service.Process.Kinds.{
  finish_bet, process_bet, process_win, attach_win_reference, process_loss, park, finish_reversal,
  move_by, reverse, reverse_found, process_reversal, dispatch,
}
use wager_service.Process.Request.{Command}
use wager_service.Process.Reversal.{validate_reversal_reference, reversal_direction}
use wager_service.Process.Outcome.{reject_and_save}
use wager_service.Invariants.Triple.{
  Leads, Leads-fail, Leads-if, Keeps-read, Keeps-bind, Keeps-lift, Leads-bind, Leads-lift,
  Leads-found, keeps_rules,
}
use wager_service.Invariants.Stable.{
  Found, Leads-Found, Stable, commit_movement-Leads, reject_and_save-Keeps,
  append_processed_event-Keeps, append_pending_reference_event-Keeps,
}
use wager_service.Invariants.Reads.{
  find_wallet-Reads, find_external-Reads, count-Reads, find_wallet-looks,
}

module _ (v7 : ℕ → Uuid) {I : Db → Type 0} (stable : Stable I) where
  finish_bet-Leads :
      (id : Uuid) (tx : Transaction) (cmd : Command) (w₀ : Wallet) (r : Result (Movement × Wallet))
      → Fits cmd.amount
      → Wallet.debit w₀ cmd.amount cmd.now ≡ r
      → Leads (Found I id w₀) (finish_bet (postgres v7) tx cmd w₀.version r) I
  unfolding finish_bet
  finish_bet-Leads id tx cmd w₀ (ok (mv, w)) fits e =
      commit_movement-Leads v7 stable id tx w₀ w mv debit cmd fits e
  finish_bet-Leads id tx cmd w₀ (err insufficient_balance) fits e =
      Leads-Found id w₀ (reject_and_save-Keeps v7 stable.records tx cmd _)
  finish_bet-Leads id tx cmd w₀ (err _) fits e = Leads-fail _

  process_bet-Keeps :
      (tx : Transaction) (cmd : Command)
      → Fits cmd.amount
      → Leads I (process_bet (postgres v7) tx cmd) I
  unfolding process_bet
  process_bet-Keeps tx cmd fits =
      Leads-found (Wallets.lookup cmd.wallet_id) _ _ (find_wallet-looks cmd.wallet_id)
        λ w. finish_bet-Leads cmd.wallet_id tx cmd w _ fits refl

  attach_win_reference-Keeps :
      (J : Db → Type 0) (tx : Transaction) (cmd : Command)
      → Leads J (attach_win_reference (postgres v7) tx cmd) J
  unfolding attach_win_reference
  attach_win_reference-Keeps J tx cmd = search (keeps_rules, find_external-Reads)

  process_win-Keeps :
      (tx : Transaction) (cmd : Command)
      → Fits cmd.amount
      → Leads I (process_win (postgres v7) tx cmd) I
  unfolding process_win
  process_win-Keeps tx cmd fits =
      Leads-found (Wallets.lookup cmd.wallet_id) _ _ (find_wallet-looks cmd.wallet_id) λ w.
        Leads-lift _ _ λ moved e. Leads-bind _ _ (attach_win_reference-Keeps _ tx cmd) λ tx'.
          commit_movement-Leads v7 stable cmd.wallet_id tx' w moved.1 moved.0 credit cmd fits e

  process_loss-Keeps :
      (tx : Transaction) (cmd : Command) → Leads I (process_loss (postgres v7) tx cmd) I
  unfolding process_loss
  process_loss-Keeps tx cmd = search (
    keeps_rules,
    Keeps-lift,
    find_wallet-Reads,
    stable.records.tx_save,
    append_processed_event-Keeps v7 stable.records.outbox_append,
  )

  park-Keeps : (tx : Transaction) (cmd : Command) → Leads I (park (postgres v7) tx cmd) I
  unfolding park
  park-Keeps tx cmd = search (
    keeps_rules,
    Keeps-lift,
    stable.records.tx_save,
    append_pending_reference_event-Keeps v7 stable.records.outbox_append,
  )

  finish_reversal-Leads :
      (id : Uuid) (tx : Transaction) (cmd : Command) (ref : Transaction) (w₀ : Wallet)
      (r : Result (Movement × Wallet))
      → Fits cmd.amount
      → move_by (reversal_direction ref.kind) w₀ cmd.amount cmd.now ≡ r
      → Leads (Found I id w₀) (finish_reversal (postgres v7) tx cmd ref w₀.version r) I
  unfolding finish_reversal
  finish_reversal-Leads id tx cmd ref w₀ (ok (mv, w)) fits e = Leads-lift _ _ λ tx' _.
      commit_movement-Leads v7 stable id tx' w₀ w mv (reversal_direction ref.kind) cmd fits e
  finish_reversal-Leads id tx cmd ref w₀ (err insufficient_balance) fits e =
      Leads-Found id w₀ (reject_and_save-Keeps v7 stable.records tx cmd _)
  finish_reversal-Leads id tx cmd ref w₀ (err _) fits e = Leads-fail _

  reverse-Keeps :
      (tx : Transaction) (cmd : Command) (ref : Transaction)
      → Fits cmd.amount
      → Leads I (reverse (postgres v7) tx cmd ref) I
  unfolding reverse
  reverse-Keeps tx cmd ref fits = Keeps-bind _ _ (Keeps-read _ (count-Reads _ _)) λ refunds.
      Keeps-bind _ _ (Keeps-read _ (count-Reads _ _)) λ rollbacks.
        Leads-if _ _ _ (reject_and_save-Keeps v7 stable.records tx cmd _) (
          Leads-found (Wallets.lookup cmd.wallet_id) _ _ (find_wallet-looks cmd.wallet_id)
            λ w. finish_reversal-Leads cmd.wallet_id tx cmd ref w _ fits refl)

  validated-Keeps :
      (tx : Transaction) (cmd : Command) (ref : Transaction) (o : Option FailureCode)
      → Fits cmd.amount
      → Leads I
          (elim o [
            | some code ↦ reject_and_save (postgres v7) tx cmd code
            | none ↦ reverse (postgres v7) tx cmd ref
          ])
          I
  validated-Keeps tx cmd ref (some code) fits = reject_and_save-Keeps v7 stable.records tx cmd code
  validated-Keeps tx cmd ref none fits = reverse-Keeps tx cmd ref fits

  reverse_found-Keeps :
      (tx : Transaction) (cmd : Command) (k : Kind) (o : Option Transaction)
      → Fits cmd.amount
      → Leads I (reverse_found (postgres v7) tx cmd k o) I
  unfolding reverse_found
  reverse_found-Keeps tx cmd k none fits = park-Keeps tx cmd
  reverse_found-Keeps tx cmd k (some ref) fits =
      validated-Keeps tx cmd ref (validate_reversal_reference cmd ref k) fits

  process_reversal-Keeps :
      (tx : Transaction) (cmd : Command) (k : Kind)
      → Fits cmd.amount
      → Leads I (process_reversal (postgres v7) tx cmd k) I
  unfolding process_reversal
  process_reversal-Keeps tx cmd k fits =
      search (keeps_rules, find_external-Reads, reverse_found-Keeps)

  pub dispatch-Keeps :
      (tx : Transaction) (cmd : Command) (k : Kind)
      → Fits cmd.amount
      → Leads I (dispatch (postgres v7) tx cmd k) I
  unfolding dispatch
  dispatch-Keeps tx cmd bet fits = process_bet-Keeps tx cmd fits
  dispatch-Keeps tx cmd win fits = process_win-Keeps tx cmd fits
  dispatch-Keeps tx cmd loss fits = process_loss-Keeps tx cmd
  dispatch-Keeps tx cmd refund fits = process_reversal-Keeps tx cmd _ fits
  dispatch-Keeps tx cmd rollback fits = process_reversal-Keeps tx cmd _ fits
  dispatch-Keeps tx cmd _ fits = Leads-fail _
