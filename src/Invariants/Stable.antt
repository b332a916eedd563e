-- ===== src/Invariants/Stable.antt =====
-- An invariant of the database that the writes of the use cases keep is kept by the use cases
-- themselves (internal/application/process_wager_transaction.go, open_wallet.go and
-- resolve_pending_references.go).
use wager_service.Base.{◌≡◌, refl, ℕ, String}
use wager_service.Ids.{Uuid, Time}
use wager_service.Errors.{Result, ok, FailureCode}
use wager_service.Money.{Money}
use wager_service.Wallet.{Wallet, Movement}
use wager_service.Wager.{Transaction}
use wager_service.Ledger
use wager_service.Money.Arithmetic.{Fits}
use wager_service.Ledger.{Direction, Entry}
use wager_service.Events.{Envelope}
use wager_service.Ports.{M, OutboxRecord, InboxRecord, ◌>>◌}
use wager_service.Postgres.{postgres}
use wager_service.Postgres.Database.{Db, World}
use wager_service.Postgres.Wallets
use wager_service.Postgres.Transactions
use wager_service.Postgres.Ledgers
use wager_service.Postgres.Inbox
use wager_service.Postgres.Outbox
use wager_service.Process.Kinds.{move_by}
use wager_service.Process.Request.{Command}
use wager_service.Process.Outcome.{
  append_event, correlation_id, append_processed_event, append_rejected_event,
  append_pending_reference_event, append_balance_changed_event, commit_movement, reject_and_save,
}
use wager_service.Invariants.Triple.{
  Leads, Reads, Keeps-read, keeps_rules, Keeps-lift, Leads-bind, Leads-lift, Leads-two,
}

-- One movement of `I`: the wallet `w₀` is found, `Debit` or `Credit` gives `w`, and the entry is accepted.
pub record Moves (w₀ w : Wallet) (entry : Entry) : Type 0 where
  pub direction : Direction
  pub amount : Money
  pub at : Time
  pub movement : Movement
  pub entry_id : Uuid
  pub transaction_id : Uuid
  pub fits : Fits amount
  pub moved : move_by direction w₀ amount at ≡ ok (movement, w)
  pub entered :
      Ledger.new entry_id w.id transaction_id direction amount movement.balance_before
        movement.balance_after at
      ≡ ok entry

-- `I` holds and the wallet `w₀` is what a lookup finds.
abbrev pub Found : (Db → Type 0) → Uuid → Wallet → Db → Type 0
Found I id w₀ db = I db × (Wallets.lookup id db ≡ ok w₀)

-- What holds without the wallet at hand.
pub Leads-Found :
    {A : Type 0} {I J : Db → Type 0} (id : Uuid) (w₀ : Wallet) {m : M World A}
    → Leads I m J
    → Leads (Found I id w₀) m J
Leads-Found id w₀ k = record { at = λ w h. k.at w h.0 }

-- The writes that move no money keep `I`.
pub record Records (I : Db → Type 0) : Type 0 where
  pub tx_create : (tx : Transaction) → Leads I (Transactions.create tx) I
  pub tx_save : (tx : Transaction) → Leads I (Transactions.save tx) I
  pub outbox_append : (rec : OutboxRecord) → Leads I (Outbox.append rec) I
  pub inbox_insert : (rec : InboxRecord) → Leads I (Inbox.insert rec) I
  pub inbox_complete : (c m : String) (at : Time) → Leads I (Inbox.mark_completed c m at) I

-- The writes of the use cases keep `I`; the two writes of a movement count as one.
pub record Stable (I : Db → Type 0) : Type 0 where
  pub records : Records I
  pub move :
      (id : Uuid) (w₀ w : Wallet) (entry : Entry)
      → Moves w₀ w entry
      → Leads (Found I id w₀) (Ledgers.append entry >> Wallets.save w w₀.version) I

module _ (v7 : ℕ → Uuid) where
  pub draw-Reads : Reads ((postgres v7).new_v7)
  draw-Reads = record { same = λ w. refl }

  -- the events need only that appending one keeps `I`
  module _ {I : Db → Type 0} (appends : (rec : OutboxRecord) → Leads I (Outbox.append rec) I) where
    pub append_event-Keeps :
        (env : Result Envelope) (now : Time) → Leads I (append_event (postgres v7) env now) I
    unfolding append_event
    append_event-Keeps env now = Leads-lift env _ (λ e _. appends _)

    correlation_id-Keeps : (cmd : Command) → Leads I (correlation_id (postgres v7) cmd) I
    unfolding correlation_id
    correlation_id-Keeps cmd = search (keeps_rules, draw-Reads)

    pub append_processed_event-Keeps :
        (tx : Transaction) (cmd : Command) → Leads I (append_processed_event (postgres v7) tx cmd) I
    unfolding append_processed_event
    append_processed_event-Keeps tx cmd =
        search (keeps_rules, correlation_id-Keeps, draw-Reads, append_event-Keeps)

    pub append_rejected_event-Keeps :
        (tx : Transaction) (cmd : Command) → Leads I (append_rejected_event (postgres v7) tx cmd) I
    unfolding append_rejected_event
    append_rejected_event-Keeps tx cmd =
        search (keeps_rules, correlation_id-Keeps, draw-Reads, append_event-Keeps)

    pub append_pending_reference_event-Keeps :
        (tx : Transaction) (cmd : Command)
        → Leads I (append_pending_reference_event (postgres v7) tx cmd) I
    unfolding append_pending_reference_event
    append_pending_reference_event-Keeps tx cmd =
        search (keeps_rules, correlation_id-Keeps, draw-Reads, append_event-Keeps)

    pub append_balance_changed_event-Keeps :
        (tx : Transaction) (w : Wallet) (mv : Movement) (dir : Direction) (cmd : Command)
        → Leads I (append_balance_changed_event (postgres v7) tx w mv dir cmd) I
    unfolding append_balance_changed_event
    append_balance_changed_event-Keeps tx w mv dir cmd =
        search (keeps_rules, correlation_id-Keeps, draw-Reads, append_event-Keeps)

  module _ {I : Db → Type 0} (records : Records I) where
    pub reject_and_save-Keeps :
        (tx : Transaction) (cmd : Command) (code : FailureCode)
        → Leads I (reject_and_save (postgres v7) tx cmd code) I
    unfolding reject_and_save
    reject_and_save-Keeps tx cmd code = search (
      keeps_rules,
      Keeps-lift,
      records.tx_save,
      append_rejected_event-Keeps records.outbox_append,
    )

  module _ {I : Db → Type 0} (stable : Stable I) where
    pub commit_movement-Leads :
        (id : Uuid) (tx : Transaction) (w₀ w : Wallet) (mv : Movement) (dir : Direction)
        (cmd : Command)
        → Fits cmd.amount
        → move_by dir w₀ cmd.amount cmd.now ≡ ok (mv, w)
        → Leads (Found I id w₀) (commit_movement (postgres v7) tx w w₀.version mv dir cmd) I
    unfolding commit_movement
    commit_movement-Leads id tx w₀ w mv dir cmd fits moved =
        Leads-bind _ _ (Keeps-read _ draw-Reads) λ entry_id. Leads-lift _ _ λ entry entered.
          Leads-two _ _ _
            (stable.move id w₀ w entry (record {
              direction = dir;
              amount = cmd.amount;
              at = cmd.now;
              movement = mv;
              entry_id = entry_id;
              transaction_id = tx.id;
              fits = fits;
              moved = moved;
              entered = entered;
            }))
            (search (
              keeps_rules,
              Keeps-lift,
              stable.records.tx_save,
              append_processed_event-Keeps stable.records.outbox_append,
              append_balance_changed_event-Keeps stable.records.outbox_append,
            ))
