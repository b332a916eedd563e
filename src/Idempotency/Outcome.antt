-- ===== src/Idempotency/Outcome.antt =====
-- internal/application/process_wager_transaction.go: how an operation ends, in the table of transactions:
-- with the row that was created for it, and an answer that is read off that row.
use wager_service.Base.{
  arith, ℕ, ◌+◌, ◌≡◌, ◌≢◌, refl, subst, sym, Bool, true, false, ◌||◌, String, Option, some, List,
  [], ◌∷◌, ◌++◌, inr, ◌⊎◌, keep, length, find,
}
use wager_service.Base.Int.{ℤ}
use wager_service.Ids.{Uuid, is_nil}
use wager_service.Errors.{FailureCode}
use wager_service.Wallet.{Wallet, Movement}
use wager_service.Wager.{
  Transaction, Kind, Status, loss, refund, rollback, kind_eq, processed, rejected,
  pending_reference,
}
use wager_service.Ledger.{Entry, Direction}
use wager_service.Ports.{OutboxRecord}
use wager_service.Postgres.{postgres}
use wager_service.Postgres.Database.{Db, TxRow}
use wager_service.Postgres.Wallets
use wager_service.Postgres.Transactions
use wager_service.Postgres.Transactions.{row_of, has_id, has_external_id, clashes}
use wager_service.Postgres.Ledgers
use wager_service.Postgres.Outbox
use wager_service.Postgres.RoundTrip.{InCurrency}
use wager_service.Process.Request.{Command, ProcessResult, result_from_transaction}
use wager_service.Process.Outcome.{commit_movement, reject_and_save}
use wager_service.Process.Kinds.{park, process_loss}
use wager_service.Invariants.Triple.{Leads, Keeps-read}
use wager_service.Invariants.Stable.{
  draw-Reads, append_processed_event-Keeps, append_rejected_event-Keeps,
  append_pending_reference_event-Keeps, append_balance_changed_event-Keeps,
}
use wager_service.Invariants.Reads.{find_wallet-Reads}
use wager_service.Invariants.Gives.{Gives, Gives-bind, Gives-lift, Gives-pure}
use wager_service.Idempotency.Rows.{
  Own, IsNew, Open, Later, Later-processed, Later-rejected, Later-parked, Later-trans,
  processed-reference, rejected-status, parked-status, update-Later,
}

-- How many processed refunds and rollbacks of `id` there are.
abbrev pub reversals : Uuid → List TxRow → ℕ
reversals id rows =
    length (keep (Transactions.reverses id refund) rows)
    + length (keep (Transactions.reverses id rollback) rows)

abbrev pub is_reversal : Kind → Bool
is_reversal k = kind_eq k refund || kind_eq k rollback

-- The row that a provider and an external identifier name, by its own identifier.
pub record NamedAs (rows : List TxRow) (provider external : String) (id : Uuid) : Type 0 where
  pub row : TxRow
  pub found : find (has_external_id provider external) rows ≡ some row
  pub real : is_nil row.id ≡ false
  pub same : id ≡ row.id

abbrev pub Named : List TxRow → Command → Uuid → Type 0
Named rows cmd id = NamedAs rows cmd.provider_id cmd.reference_external_transaction_id id

-- The resolved reference is that row, and it has no reversal yet.
pub record Referred (rows : List TxRow) (provider external : String) (resolved : Option Uuid)
    : Type 0 where
  pub id : Uuid
  pub stored : resolved ≡ some id
  pub named : NamedAs rows provider external id
  pub none_yet : reversals id rows ≡ 0

-- What a processed reversal refers to.
abbrev pub First : List TxRow → Command → Option Uuid → Type 0
First rows cmd ref =
    is_reversal cmd.kind ≡ true
    → Referred rows cmd.provider_id cmd.reference_external_transaction_id ref

pub true_and_false : {b : Bool} → b ≡ false → b ≡ true → ⊥
true_and_false e h = cc

pub First-other :
    (rows : List TxRow) (cmd : Command) (ref : Option Uuid)
    → is_reversal cmd.kind ≡ false
    → First rows cmd ref
First-other rows cmd ref e h = absurd (true_and_false e h)

-- One row more, that of a transaction which carries the command's data and gives the answer; its balance is
-- in the command's currency, except perhaps for a loss; and if it is a processed reversal, it refers to the row its command names, as the first one.
pub record Recorded (rows₀ : List TxRow) (cmd : Command) (hash : String) (r : ProcessResult)
    (rows : List TxRow) : Type 0 where
  pub tx : Transaction
  pub own : Own cmd hash tx
  pub new : IsNew rows₀ cmd tx.id
  pub answer : r ≡ result_from_transaction tx false
  pub balance : cmd.kind ≢ loss → InCurrency tx.resulting_balance cmd.amount.currency
  pub first : tx.status ≡ processed → First rows₀ cmd tx.resolved_reference_transaction_id
  pub appended : rows ≡ rows₀ ++ row_of tx ∷ []

-- A replay that changed no row; or a new answer and its row.
abbrev pub Answered : List TxRow → Command → String → ProcessResult → List TxRow → Type 0
Answered rows₀ cmd hash r rows =
    ((r.idempotent_replay ≡ true) × (rows ≡ rows₀))
    ⊎ ((r.idempotent_replay ≡ false) × Recorded rows₀ cmd hash r rows)

not_processed : {s : Status} → s ≡ rejected → s ≡ processed → ⊥
not_processed e f = cc

not_parked : {s : Status} → s ≡ pending_reference → s ≡ processed → ⊥
not_parked e f = cc

module _ (T : List TxRow → Type 0) where
  abbrev pub OnRows : Db → Type 0
  OnRows db = T db.transactions

  pub outbox-OnRows : (rec : OutboxRecord) → Leads OnRows (Outbox.append rec) OnRows
  unfolding Outbox.append
  outbox-OnRows rec = record { at = λ w h. ground (arith, h) }

  pub entry-OnRows : (e : Entry) → Leads OnRows (Ledgers.append e) OnRows
  unfolding Ledgers.append
  entry-OnRows e = record { at = λ w h. ground (arith, h) }

  wallet-OnRows : (wal : Wallet) (v : ℤ) → Leads OnRows (Wallets.save wal v) OnRows
  unfolding Wallets.save
  wallet-OnRows wal v = record { at = λ w h. ground (arith, h) }

module _ (v7 : ℕ → Uuid) (rows₀ : List TxRow) (cmd : Command) (hash : String) where
  abbrev pub Holds : Transaction → Db → Type 0
  Holds tx = OnRows (λ rows. rows ≡ rows₀ ++ row_of tx ∷ [])

  abbrev pub Q : ProcessResult → Db → Type 0
  Q r db = Answered rows₀ cmd hash r db.transactions

  module _ (tx tx' : Transaction) (open_tx : Open rows₀ cmd hash tx) (later : Later tx tx') where
    save-Holds : Leads (Holds tx) (Transactions.save tx') (Holds tx')
    unfolding Transactions.save
    save-Holds = record {
      at = λ w h. ground (arith, h, update-Later rows₀ tx tx' open_tx.new.no_id later);
    }

    recorded :
        (cmd.kind ≢ loss → InCurrency tx'.resulting_balance cmd.amount.currency)
        → (tx'.status ≡ processed → First rows₀ cmd tx'.resolved_reference_transaction_id)
        → (db : Db) → Holds tx' db
        → Q (result_from_transaction tx' false) db
    recorded b first db h = inr (
      refl,
      record {
        tx = tx';
        own = later.own cmd hash open_tx.own;
        new = subst (IsNew rows₀ cmd) (sym later.id) open_tx.new;
        answer = refl;
        balance = b;
        first = first;
        appended = h;
      },
    )

  -- the balance of a movement is in the currency of its amount
  pub commit_movement-Answered :
      (tx₀ tx : Transaction) (w : Wallet) (v : ℤ) (mv : Movement) (dir : Direction)
      → Open rows₀ cmd hash tx₀
      → Later tx₀ tx
      → First rows₀ cmd tx.resolved_reference_transaction_id
      → mv.balance_after.currency ≡ cmd.amount.currency
      → Gives (Holds tx₀) (commit_movement (postgres v7) tx w v mv dir cmd) Q
  unfolding commit_movement
  commit_movement-Answered tx₀ tx w v mv dir o l f c =
      Gives-bind _ _ (Keeps-read _ (draw-Reads v7)) λ entry_id. Gives-lift _ _ λ entry _.
        Gives-bind _ _ (entry-OnRows _ entry) λ _. Gives-bind _ _ (wallet-OnRows _ w v) λ _.
          Gives-lift _ _ λ tx' marked.
            let (m, b) = Later-processed mv.balance_after cmd.now tx tx' marked in
            let later = Later-trans tx₀ tx tx' l m in
            Gives-bind _ _ (save-Holds tx₀ tx' o later) λ _.
              Gives-bind _ _ (append_processed_event-Keeps v7 (outbox-OnRows _) tx' cmd) λ _.
                Gives-bind _ _
                  (append_balance_changed_event-Keeps v7 (outbox-OnRows _) tx' w mv dir cmd)
                  λ _. Gives-pure _ (
                    recorded tx₀ tx' o later (λ _. rw b c)
                      (λ _.
                        subst (First rows₀ cmd)
                          (sym (processed-reference mv.balance_after cmd.now tx tx' marked)) f))

  pub reject_and_save-Answered :
      (tx : Transaction) (code : FailureCode)
      → Open rows₀ cmd hash tx
      → Gives (Holds tx) (reject_and_save (postgres v7) tx cmd code) Q
  unfolding reject_and_save
  reject_and_save-Answered tx code o = Gives-lift _ _ λ tx' marked.
      let (later, b) = Later-rejected code cmd.now tx tx' marked in
      Gives-bind _ _ (save-Holds tx tx' o later) λ _.
        Gives-bind _ _ (append_rejected_event-Keeps v7 (outbox-OnRows _) tx' cmd) λ _.
          Gives-pure _ (
            recorded tx tx' o later (λ _. rw (b, o.undecided) tt)
              (λ done. absurd (not_processed (rejected-status code cmd.now tx tx' marked) done)))

  pub park-Answered :
      (tx : Transaction) → Open rows₀ cmd hash tx → Gives (Holds tx) (park (postgres v7) tx cmd) Q
  unfolding park
  park-Answered tx o = Gives-lift _ _ λ tx' marked.
      let (later, b) = Later-parked cmd.now tx tx' marked in
      Gives-bind _ _ (save-Holds tx tx' o later) λ _.
        Gives-bind _ _ (append_pending_reference_event-Keeps v7 (outbox-OnRows _) tx' cmd) λ _.
          Gives-pure _ (
            recorded tx tx' o later (λ _. rw (b, o.undecided) tt)
              (λ done. absurd (not_parked (parked-status cmd.now tx tx' marked) done)))

  -- A loss: its resulting balance is the wallet's, in whatever currency that is.
  pub process_loss-Answered :
      (tx : Transaction)
      → cmd.kind ≡ loss
      → Open rows₀ cmd hash tx
      → Gives (Holds tx) (process_loss (postgres v7) tx cmd) Q
  unfolding process_loss
  process_loss-Answered tx k o = Gives-bind _ _ (Keeps-read _ (find_wallet-Reads _)) λ w.
      Gives-lift _ _ λ tx' marked.
        let later = (Later-processed w.balance cmd.now tx tx' marked).0 in
        Gives-bind _ _ (save-Holds tx tx' o later) λ _.
          Gives-bind _ _ (append_processed_event-Keeps v7 (outbox-OnRows _) tx' cmd) λ _.
            Gives-pure _ (
              recorded tx tx' o later (λ other. absurd (other k))
                (λ _. First-other rows₀ cmd tx'.resolved_reference_transaction_id (rw k refl)))
