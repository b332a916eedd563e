-- ===== src/Idempotency/Kinds.antt =====
-- internal/application/process_wager_transaction.go: how every kind of operation ends, in the table of
-- transactions.
use wager_service.Base.{
  arith, ℕ, ◌+◌, ◌≤◌, ◌≡◌, refl, Bool, false, String, Option, none, some, List, [], ◌∷◌, ◌++◌,
  eq_iff, length, keep, ltb, ap, ◌∙◌,
}
use wager_service.Ids.{Uuid, Time}
use wager_service.Errors.{Result, ok, err, insufficient_balance, FailureCode}
use wager_service.Money.{Money, add, subtract}
use wager_service.Wallet
use wager_service.Wallet.{Wallet, Movement}
use wager_service.Wager.{
  Transaction, processed, Kind, bet, win, loss, refund, rollback, no_kind,
  attach_resolved_reference,
}
use wager_service.Ledger.{Direction, debit, credit}
use wager_service.Ports.{M}
use wager_service.Postgres.{postgres}
use wager_service.Postgres.Database.{Db, World, TxRow}
use wager_service.Postgres.Transactions
use wager_service.Postgres.Transactions.{
  row_of, reverses, has_external_id, scan_found, rehydrate_row,
}
use wager_service.Process.Request.{Command, ProcessResult}
use wager_service.Process.Reversal.{validate_reversal_reference, reversal_direction}
use wager_service.Process.Outcome.{reject_and_save}
use wager_service.Process.Matching.{accepted-status}
use wager_service.Process.Kinds.{
  move_by, attach_if_found, finish_bet, process_bet, attach_win_reference, process_win,
  finish_reversal, reverse, reverse_found, process_reversal, dispatch,
}
use wager_service.Invariants.Triple.{Keeps-read, Reads-attempt}
use wager_service.Invariants.Reads.{find_external-Reads, find_wallet-Reads}
use wager_service.Invariants.Gives.{
  Gives, Gives-fail, Gives-pure, Gives-found, Gives-test, Gives-weaken, Gives-knows, Gives-if,
  Gives-bind, Gives-then, Gives-lift,
}
use wager_service.Idempotency.Rows.{Open, Later, Later-attached, Later-refl, attached-reference}
use wager_service.Idempotency.Outcome.{
  First, Named, First-other, reversals, Holds, Q, commit_movement-Answered,
  reject_and_save-Answered, park-Answered, process_loss-Answered,
}
use wager_service.Idempotency.Reference.{looked_up, reference-looks, Named-found}

debit-currency :
    (w : Wallet) (amount : Money) (at : Time) (mv : Movement) (w' : Wallet)
    → Wallet.debit w amount at ≡ ok (mv, w')
    → mv.balance_after.currency ≡ amount.currency
unfolding Wallet.debit subtract
debit-currency w amount at mv w' e = ground (arith, eq_iff amount.currency w.balance.currency)

credit-currency :
    (w : Wallet) (amount : Money) (at : Time) (mv : Movement) (w' : Wallet)
    → Wallet.credit w amount at ≡ ok (mv, w')
    → mv.balance_after.currency ≡ amount.currency
unfolding Wallet.credit add
credit-currency w amount at mv w' e = ground (arith, eq_iff amount.currency w.balance.currency)

move_by-currency :
    (dir : Direction) (w : Wallet) (amount : Money) (at : Time) (mv : Movement) (w' : Wallet)
    → move_by dir w amount at ≡ ok (mv, w')
    → mv.balance_after.currency ≡ amount.currency
move_by-currency credit w amount at mv w' e = credit-currency w amount at mv w' e
move_by-currency debit w amount at mv w' e = debit-currency w amount at mv w' e
move_by-currency _ w amount at mv w' e = debit-currency w amount at mv w' e

First-of :
    (rows : List TxRow) (cmd : Command) (id : Uuid) (ref : Option Uuid)
    → ref ≡ some id
    → Named rows cmd id
    → reversals id rows ≡ 0
    → First rows cmd ref
First-of rows cmd id ref e named none_yet h = record {
  id = id;
  stored = e;
  named = named;
  none_yet = none_yet;
}

-- what the two counts read
abbrev counted : Uuid → Kind → Db → Result ℕ
counted id k db = ok (length (keep (reverses id k) db.transactions))

count-looks :
    (id : Uuid) (k : Kind) (w : World)
    → Transactions.count_successful_reversals id k w ≡ (counted id k w.db, w)
unfolding Transactions.count_successful_reversals
count-looks id k w = refl

keep-le :
    (p : TxRow → Bool) (rows : List TxRow) (r : TxRow)
    → length (keep p rows) ≤ length (keep p (rows ++ r ∷ []))
unfolding keep
keep-le p [] r = omega arith
keep-le p (x ∷ rows) r = ground (arith, keep-le p rows r)

none_before :
    (rows₀ : List TxRow) (tx : Transaction) (id : Uuid) (rows : List TxRow) (m n : ℕ)
    → rows ≡ rows₀ ++ row_of tx ∷ []
    → ok (length (keep (reverses id refund) rows)) ≡ ok m
    → ok (length (keep (reverses id rollback) rows)) ≡ ok n
    → ltb 0 (m + n) ≡ false
    → reversals id rows₀ ≡ 0
none_before rows₀ tx id rows m n shape em en h = ground (
  arith,
  keep-le (reverses id refund) rows₀ (row_of tx),
  keep-le (reverses id rollback) rows₀ (row_of tx),
)

-- A resolved reference is not stored before the next `Save`.
attached_or_not :
    (tx : Transaction) (r : Result Transaction)
    → ((tx' : Transaction) → r ≡ ok tx' → Later tx tx')
    → Later tx (elim r [ ok tx' ↦ tx' | err e ↦ tx ])
attached_or_not tx (ok tx') k = k tx' refl
attached_or_not tx (err e) k = Later-refl tx

attach-Later : (tx : Transaction) (r : Result Transaction) → Later tx (attach_if_found tx r)
unfolding attach_if_found
attach-Later tx (err e) = Later-refl tx
attach-Later tx (ok ref) =
    attached_or_not tx (attach_resolved_reference ref.id tx)
      (λ tx' e. (Later-attached ref.id tx tx' e).0)

module _ (v7 : ℕ → Uuid) (rows₀ : List TxRow) (cmd : Command) (hash : String) where
  abbrev H : Transaction → Db → Type 0
  H = Holds v7 rows₀ cmd hash

  abbrev R : ProcessResult → Db → Type 0
  R = Q v7 rows₀ cmd hash

  finish_bet-Answered :
      (tx : Transaction) (w₀ : Wallet) (r : Result (Movement × Wallet))
      → Open rows₀ cmd hash tx
      → cmd.kind ≡ bet
      → Wallet.debit w₀ cmd.amount cmd.now ≡ r
      → Gives (H tx) (finish_bet (postgres v7) tx cmd w₀.version r) R
  unfolding finish_bet
  finish_bet-Answered tx w₀ (ok (mv, w)) o k e =
      commit_movement-Answered v7 rows₀ cmd hash tx tx w _ mv debit o (Later-refl tx)
        (First-other rows₀ cmd tx.resolved_reference_transaction_id (rw k refl))
        (debit-currency w₀ cmd.amount cmd.now mv w e)
  finish_bet-Answered tx w₀ (err insufficient_balance) o k e =
      reject_and_save-Answered v7 rows₀ cmd hash tx _ o
  finish_bet-Answered tx w₀ (err _) o k e = Gives-fail _

  process_bet-Answered :
      (tx : Transaction)
      → Open rows₀ cmd hash tx
      → cmd.kind ≡ bet
      → Gives (H tx) (process_bet (postgres v7) tx cmd) R
  unfolding process_bet
  process_bet-Answered tx o k =
      Gives-bind _ _ (Keeps-read _ (find_wallet-Reads _)) λ w. finish_bet-Answered tx w _ o k refl

  abbrev Attached : Transaction → Transaction → Db → Type 0
  Attached tx tx' db = H tx db × Later tx tx'

  attach_win_reference-Later :
      (tx : Transaction) → Gives (H tx) (attach_win_reference (postgres v7) tx cmd) (Attached tx)
  unfolding attach_win_reference
  attach_win_reference-Later tx = Gives-if _ _ _ (Gives-pure _ (λ db h. (h, Later-refl tx))) (
      Gives-bind _ _ (Keeps-read _ (Reads-attempt _ (find_external-Reads _ _)))
        λ r. Gives-pure _ (λ db h. (h, attach-Later tx r)))

  -- the rest of `processWin` may use what its reference is
  knowing :
      {A : Type 0} (tx tx' : Transaction) (m : M World A) (Z : A → Db → Type 0)
      → (Later tx tx' → Gives (H tx) m Z)
      → Gives (Attached tx tx') m Z
  knowing tx tx' m Z k = record { at = λ w h. (k h.1).at w h.0 }

  process_win-Answered :
      (tx : Transaction)
      → Open rows₀ cmd hash tx
      → cmd.kind ≡ win
      → Gives (H tx) (process_win (postgres v7) tx cmd) R
  unfolding process_win
  process_win-Answered tx o k = Gives-bind _ _ (Keeps-read _ (find_wallet-Reads _)) λ w.
      Gives-lift _ _ λ moved e.
        Gives-then {R = Attached tx} _ _ (attach_win_reference-Later tx) λ tx'.
          knowing tx tx' _ _ λ l.
            commit_movement-Answered v7 rows₀ cmd hash tx tx' moved.1 _ moved.0 credit o l
              (First-other rows₀ cmd tx'.resolved_reference_transaction_id (rw k refl))
              (credit-currency w cmd.amount cmd.now moved.0 moved.1 e)

  finish_reversal-Answered :
      (tx ref : Transaction) (w₀ : Wallet) (r : Result (Movement × Wallet))
      → Open rows₀ cmd hash tx
      → Named rows₀ cmd ref.id
      → reversals ref.id rows₀ ≡ 0
      → move_by (reversal_direction ref.kind) w₀ cmd.amount cmd.now ≡ r
      → Gives (H tx) (finish_reversal (postgres v7) tx cmd ref w₀.version r) R
  unfolding finish_reversal
  finish_reversal-Answered tx ref w₀ (ok (mv, w)) o named none_yet e =
      Gives-lift _ _ λ tx' attached.
        commit_movement-Answered v7 rows₀ cmd hash tx tx' w _ mv (reversal_direction ref.kind) o
          (Later-attached ref.id tx tx' attached).0
          (First-of rows₀ cmd ref.id tx'.resolved_reference_transaction_id
            (attached-reference ref.id tx tx' attached) named none_yet)
          (move_by-currency (reversal_direction ref.kind) w₀ cmd.amount cmd.now mv w e)
  finish_reversal-Answered tx ref w₀ (err insufficient_balance) o named none_yet e =
      reject_and_save-Answered v7 rows₀ cmd hash tx _ o
  finish_reversal-Answered tx ref w₀ (err _) o named none_yet e = Gives-fail _

  reverse-Answered :
      (tx ref : Transaction)
      → Open rows₀ cmd hash tx
      → Named rows₀ cmd ref.id
      → Gives (H tx) (reverse (postgres v7) tx cmd ref) R
  unfolding reverse
  reverse-Answered tx ref o named =
      Gives-found (counted ref.id refund) _ _ (count-looks ref.id refund) λ refunds.
        Gives-found (counted ref.id rollback) _ _ (count-looks ref.id rollback) λ rollbacks.
          Gives-test (ltb 0 (refunds + rollbacks)) _ _
            (λ _. Gives-weaken (λ db h. h.0.0) (reject_and_save-Answered v7 rows₀ cmd hash tx _ o))
            (λ nothing.
              Gives-knows
                (λ db h.
                  none_before rows₀ tx ref.id db.transactions refunds rollbacks h.0.0 h.0.1 h.1
                    nothing)
                λ none_yet.
                  Gives-weaken (λ db h. h.0.0)
                    (Gives-bind _ _ (Keeps-read _ (find_wallet-Reads _))
                      λ w. finish_reversal-Answered tx ref w _ o named none_yet refl))

  validated-Answered :
      (tx ref : Transaction) (o : Option FailureCode)
      → Open rows₀ cmd hash tx
      → (o ≡ none → Named rows₀ cmd ref.id)
      → Gives
          (H tx)
          (elim o [
            | some code ↦ reject_and_save (postgres v7) tx cmd code
            | none ↦ reverse (postgres v7) tx cmd ref
          ])
          R
  validated-Answered tx ref (some code) o known =
      reject_and_save-Answered v7 rows₀ cmd hash tx code o
  validated-Answered tx ref none o known = reverse-Answered tx ref o (known refl)

  reverse_found-Answered :
      (tx : Transaction) (expected : Kind) (ref : Option Transaction)
      → Open rows₀ cmd hash tx
      → ((r : Transaction) → ref ≡ some r → r.status ≡ processed → Named rows₀ cmd r.id)
      → Gives (H tx) (reverse_found (postgres v7) tx cmd expected ref) R
  unfolding reverse_found
  reverse_found-Answered tx expected none o known = park-Answered v7 rows₀ cmd hash tx o
  reverse_found-Answered tx expected (some ref) o known =
      validated-Answered tx ref (validate_reversal_reference cmd ref expected) o
        (λ v. known ref refl (accepted-status cmd ref expected v))

  process_reversal-Answered :
      (tx : Transaction) (expected : Kind)
      → Open rows₀ cmd hash tx
      → Gives (H tx) (process_reversal (postgres v7) tx cmd expected) R
  unfolding process_reversal
  process_reversal-Answered tx expected o =
      Gives-found (looked_up cmd) _ _ (reference-looks cmd) λ ref.
        Gives-knows
          (λ db h r e done.
            Named-found rows₀ cmd hash tx o db.transactions r h.0 (h.1 ∙ ap ok e) done)
          λ known. Gives-weaken (λ db h. h.0) (reverse_found-Answered tx expected ref o known)

  pub dispatch-Answered :
      (tx : Transaction) (k : Kind)
      → Open rows₀ cmd hash tx
      → cmd.kind ≡ k
      → Gives (H tx) (dispatch (postgres v7) tx cmd k) R
  unfolding dispatch
  dispatch-Answered tx bet o k = process_bet-Answered tx o k
  dispatch-Answered tx win o k = process_win-Answered tx o k
  dispatch-Answered tx loss o k = process_loss-Answered v7 rows₀ cmd hash tx k o
  dispatch-Answered tx refund o k = process_reversal-Answered tx bet o
  dispatch-Answered tx rollback o k = process_reversal-Answered tx no_kind o
  dispatch-Answered tx _ o k = Gives-fail _
