-- ===== src/Invariants/Effect.antt =====
-- What one command does to the money (internal/application/process_wager_transaction.go on
-- internal/infra/postgres): one movement of its amount, or nothing.
use wager_service.Base.{
  arith, ℕ, ◌≡◌, refl, sym, some, find, true, false, List, [], ◌∷◌, ◌++◌, update, inl, inr, ◌⊎◌,
}
use wager_service.Ids.{Uuid, Time}
use wager_service.Errors.{ok, FailureCode}
use wager_service.Money.Arithmetic.{Fits}
use wager_service.Wallet.{Wallet, Movement}
use wager_service.Wager
use wager_service.Money.{Money}
use wager_service.Wager.{
  Transaction, Kind, bet, win, loss, refund, rollback, mark_processed, mark_rejected,
  mark_pending_reference,
}
use wager_service.Ledger.{Entry, Direction, debit, credit}
use wager_service.Ports.{◌>>=◌, ◌>>◌}
use wager_service.Postgres.{postgres}
use wager_service.Postgres.Database.{Db, LedgerRow}
use wager_service.Postgres.Wallets
use wager_service.Postgres.Ledgers
use wager_service.Process.Kinds.{move_by}
use wager_service.Process.Request.{
  Command, ProcessResult, result_processed, result_rejected, result_pending_reference,
}
use wager_service.Process.Outcome.{commit_movement, reject_and_save}
use wager_service.Invariants.Triple.{Leads, Keeps-read}
use wager_service.Invariants.Stable.{
  Moves, Found, Records, draw-Reads, append_processed_event-Keeps, append_rejected_event-Keeps,
  append_balance_changed_event-Keeps,
}
use wager_service.Invariants.Tables.{OnTables, OnTables-Records}
use wager_service.Invariants.Balance.{found-row}
use wager_service.Invariants.Gives.{Gives, Gives-bind, Gives-lift, Gives-two, Gives-pure}

-- The directions of the kinds that move money: a bet takes, a win and a refund give; a rollback depends on
-- what it reverses, and a loss moves nothing.
abbrev pub Way : Kind → Direction → Type 0
Way bet direction = direction ≡ debit
Way win direction = direction ≡ credit
Way refund direction = direction ≡ credit
Way rollback direction = Unit
Way _ direction = ⊥

-- One movement of the command's amount: of the wallet that the command names, by the methods of the
-- domain, with one new entry at the end of the ledger and one changed row.
pub record MovesOnce (wallets₀ : List Wallet) (ledger₀ : List LedgerRow) (cmd : Command)
    (wallets : List Wallet) (ledger : List LedgerRow) : Type 0 where
  pub before : Wallet
  pub after : Wallet
  pub entry : Entry
  pub moves : Moves before after entry
  pub own : before.id ≡ cmd.wallet_id
  pub stored : find (Wallets.has_id cmd.wallet_id) wallets₀ ≡ some before
  pub amount : moves.amount ≡ cmd.amount
  pub way : Way cmd.kind moves.direction
  pub rows :
      wallets
      ≡ update (Wallets.is_version after.id before.version) (Wallets.overwrite after) wallets₀
  pub entries : ledger ≡ ledger₀ ++ Ledgers.row_of entry ∷ []

abbrev pub Same : List Wallet → List LedgerRow → List Wallet → List LedgerRow → Type 0
Same wallets₀ ledger₀ wallets ledger = (wallets ≡ wallets₀) × (ledger ≡ ledger₀)

-- An answer `PROCESSED` that is no replay.
abbrev pub IsFresh : ProcessResult → Type 0
IsFresh r = (r.status ≡ result_processed) × (r.idempotent_replay ≡ false)

-- The answers to a command that moves no money: a replay, a rejection, a parked reversal, or a loss.
abbrev pub IsStill : Command → ProcessResult → Type 0
IsStill cmd r =
    (r.idempotent_replay ≡ true)
    ⊎ ((r.status ≡ result_rejected) ⊎ ((r.status ≡ result_pending_reference) ⊎ (cmd.kind ≡ loss)))

-- Nothing moved, and the answer is of that sort; or the answer is fresh and one movement was made.
abbrev pub Effect : List Wallet → List LedgerRow → Command → ProcessResult → Db → Type 0
Effect wallets₀ ledger₀ cmd r db =
    (IsStill cmd r × Same wallets₀ ledger₀ db.wallets db.ledger)
    ⊎ (IsFresh r × MovesOnce wallets₀ ledger₀ cmd db.wallets db.ledger)

processed_status :
    (balance : Money) (at : Time) (tx tx' : Transaction)
    → mark_processed balance at tx ≡ ok tx'
    → tx'.status ≡ Wager.processed
unfolding mark_processed
processed_status balance at tx tx' e = ground arith

rejected_status :
    (code : FailureCode) (at : Time) (tx tx' : Transaction)
    → mark_rejected code at tx ≡ ok tx'
    → tx'.status ≡ Wager.rejected
unfolding mark_rejected
rejected_status code at tx tx' e = ground arith

module _ (v7 : ℕ → Uuid) (wallets₀ : List Wallet) (ledger₀ : List LedgerRow) (cmd : Command) where
  abbrev pub Still : Db → Type 0
  Still = OnTables (Same wallets₀ ledger₀)

  abbrev pub Moved : Db → Type 0
  Moved = OnTables (MovesOnce wallets₀ ledger₀ cmd)

  pub Still-Records : Records Still
  Still-Records = OnTables-Records (Same wallets₀ ledger₀)

  Moved-Records : Records Moved
  Moved-Records = OnTables-Records (MovesOnce wallets₀ ledger₀ cmd)

  module _ (w₀ w : Wallet) (entry : Entry) (m : Moves w₀ w entry) (amount : m.amount ≡ cmd.amount)
      (way : Way cmd.kind m.direction) where
    moved_to :
        (wallets : List Wallet) (ledger : List LedgerRow)
        → w₀.id ≡ cmd.wallet_id
        → find (Wallets.has_id cmd.wallet_id) wallets ≡ some w₀
        → Same wallets₀ ledger₀ wallets ledger
        → MovesOnce wallets₀ ledger₀ cmd
            (update (Wallets.is_version w.id w₀.version) (Wallets.overwrite w) wallets)
            (ledger ++ Ledgers.row_of entry ∷ [])
    moved_to wallets ledger own stored same = record {
      before = w₀;
      after = w;
      entry = entry;
      moves = m;
      own = own;
      stored = rw (sym same.0) stored;
      amount = amount;
      way = way;
      rows = rw same.0 refl;
      entries = rw same.1 refl;
    }

    -- the two writes of a movement
    posted :
        Leads
          (Found Still cmd.wallet_id w₀)
          (Ledgers.append entry >> Wallets.save w w₀.version)
          Moved
    unfolding Ledgers.append Wallets.save ◌>>=◌
    posted = record {
      at = λ world h.
          let (stored, own) = found-row cmd.wallet_id world.db w₀ h.1 in
          ground (arith, moved_to world.db.wallets world.db.ledger own stored h.0);
    }

  pub commit_movement-Gives :
      (tx : Transaction) (w₀ w : Wallet) (mv : Movement) (dir : Direction)
      → Fits cmd.amount
      → Way cmd.kind dir
      → move_by dir w₀ cmd.amount cmd.now ≡ ok (mv, w)
      → Gives
          (Found Still cmd.wallet_id w₀)
          (commit_movement (postgres v7) tx w w₀.version mv dir cmd)
          (Effect wallets₀ ledger₀ cmd)
  unfolding commit_movement
  commit_movement-Gives tx w₀ w mv dir fits way moved =
      Gives-bind _ _ (Keeps-read _ (draw-Reads v7)) λ entry_id. Gives-lift _ _ λ entry entered.
        Gives-two _ _ _
          (posted w₀ w entry
            (record {
              direction = dir;
              amount = cmd.amount;
              at = cmd.now;
              movement = mv;
              entry_id = entry_id;
              transaction_id = tx.id;
              fits = fits;
              moved = moved;
              entered = entered;
            })
            refl way)
          (Gives-lift _ _ λ tx' marked. Gives-bind _ _ (Moved-Records.tx_save tx') λ _.
            Gives-bind _ _ (append_processed_event-Keeps v7 Moved-Records.outbox_append tx' cmd)
              λ _.
                Gives-bind _ _
                  (append_balance_changed_event-Keeps v7 Moved-Records.outbox_append tx' w mv dir
                    cmd)
                  λ _. Gives-pure _ (λ db moved. inr (
                    (rw (processed_status mv.balance_after cmd.now tx tx' marked) refl, refl),
                    moved,
                  )))

  pub reject_and_save-Gives :
      (tx : Transaction) (code : FailureCode)
      → Gives Still (reject_and_save (postgres v7) tx cmd code) (Effect wallets₀ ledger₀ cmd)
  unfolding reject_and_save
  reject_and_save-Gives tx code = Gives-lift _ _ λ tx' marked.
      Gives-bind _ _ (Still-Records.tx_save tx') λ _.
        Gives-bind _ _ (append_rejected_event-Keeps v7 Still-Records.outbox_append tx' cmd) λ _.
          Gives-pure _ (λ db same.
            inl (inr (inl (rw (rejected_status code cmd.now tx tx' marked) refl)), same))
