-- ===== src/Invariants/Open.antt =====
-- internal/application/open_wallet.go: `Execute` and an invariant of the database.
use wager_service.Money.Arithmetic.{Fits}
use wager_service.Base.{ap, arith, ℕ, ◌≡◌, Bool, true, false, if◌then◌else◌}
use wager_service.Ids.{Uuid, Time}
use wager_service.Errors.{ok}
use wager_service.Money
use wager_service.Money.{Money, is_positive}
use wager_service.Wallet
use wager_service.Wallet.{Wallet}
use wager_service.Wager.{Transaction, opening, new_opening}
use wager_service.Ledger
use wager_service.Ledger.{Entry, credit}
use wager_service.Ports.{OutboxRecord, pure}
use wager_service.Postgres.{postgres}
use wager_service.Postgres.Database.{Db, World}
use wager_service.Postgres.Wallets
use wager_service.Postgres.Transactions
use wager_service.Postgres.Ledgers
use wager_service.Postgres.Outbox
use wager_service.OpenWallet.{
  OpenWalletCommand, correlation_id, append_opening_events, record_opening, execute_body, execute,
}
use wager_service.Invariants.Triple.{
  Leads, Keeps-pure, Keeps-read, Keeps-lift, Leads-bind, Leads-lift, Leads-pure_at, keeps_rules,
  EitherOf, EitherOf-same, within_tx-either,
}
use wager_service.Invariants.Stable.{draw-Reads, append_event-Keeps}

-- The entry with which a wallet opens.
pub record Opens (w : Wallet) (entry : Entry) : Type 0 where
  pub entry_id : Uuid
  pub transaction_id : Uuid
  pub at : Time
  pub zero : Money
  pub zeroed : Money.zero w.balance.currency ≡ ok zero
  pub entered :
      Ledger.new entry_id w.id transaction_id credit w.balance zero w.balance at ≡ ok entry

-- The writes of an opening with that balance lead from `I` to `J`; `O w` is what holds between the row of
-- the wallet `w` and its opening entry.
pub record Opener (balance : Money) (I : Db → Type 0) (O : Wallet → Db → Type 0) (J : Db → Type 0)
    : Type 0 where
  pub create :
      (id player : Uuid) (at : Time) (w : Wallet)
      → Fits balance
      → Wallet.new id player balance at ≡ ok w
      → Leads I (Wallets.create w) (O w)
  pub tx_create :
      (w : Wallet) (tx : Transaction)
      → tx.kind ≡ opening
      → Leads (O w) (Transactions.create tx) (O w)
  pub no_entry : (w : Wallet) → is_positive w.balance ≡ false → (db : Db) → O w db → J db
  pub entry : (w : Wallet) (e : Entry) → Opens w e → Leads (O w) (Ledgers.append e) J

-- Opening keeps `I`, whatever the balance is.
abbrev pub Openable : (Db → Type 0) → (Wallet → Db → Type 0) → Type 0
Openable I O = (balance : Money) → Opener balance I O I

opening-kind :
    (id wallet_id player_id : Uuid) (amount : Money) (at : Time) (tx : Transaction)
    → new_opening id wallet_id player_id amount at ≡ ok tx
    → tx.kind ≡ opening
unfolding new_opening
opening-kind id wallet_id player_id amount at tx e = ground arith

module _ (v7 : ℕ → Uuid) {I : Db → Type 0}
    (appends : (rec : OutboxRecord) → Leads I (Outbox.append rec) I) where
  correlation_id-Keeps : (cmd : OpenWalletCommand) → Leads I (correlation_id (postgres v7) cmd) I
  unfolding correlation_id
  correlation_id-Keeps cmd = search (keeps_rules, draw-Reads)

  append_opening_events-Keeps :
      (w : Wallet) (tx : Transaction) (cmd : OpenWalletCommand)
      → Leads I (append_opening_events (postgres v7) w tx cmd) I
  unfolding append_opening_events
  append_opening_events-Keeps w tx cmd =
      search
        (keeps_rules, Keeps-lift, draw-Reads, correlation_id-Keeps, append_event-Keeps v7 appends)
        depth 15

  module _ {H : Db → Type 0} {O : Wallet → Db → Type 0} (cmd : OpenWalletCommand)
      (opener : Opener cmd.initial_balance H O I) where
    record_opening-Leads :
        (w : Wallet)
        → w.balance ≡ cmd.initial_balance
        → Leads (O w) (record_opening (postgres v7) w cmd) I
    unfolding record_opening
    record_opening-Leads w same = Leads-lift _ _ λ zero zeroed.
        Leads-bind _ _ (Keeps-read _ (draw-Reads v7)) λ opening_id. Leads-lift _ _ λ tx made.
          Leads-bind _ _ (opener.tx_create w tx (opening-kind _ _ _ _ _ tx made)) λ _.
            Leads-bind _ _ (Keeps-read _ (draw-Reads v7)) λ entry_id. Leads-lift _ _ λ e entered.
              Leads-bind _ _
                (opener.entry w e (record {
                  entry_id = entry_id;
                  transaction_id = opening_id;
                  at = cmd.now;
                  zero = zero;
                  zeroed = rw same zeroed;
                  entered = rw same entered;
                }))
                λ _. append_opening_events-Keeps w tx cmd

    opened-Leads :
        (w : Wallet) (b : Bool)
        → w.balance ≡ cmd.initial_balance
        → is_positive w.balance ≡ b
        → Leads (O w) (if b then record_opening (postgres v7) w cmd else pure tt) I
    opened-Leads w true same e = record_opening-Leads w same
    opened-Leads w false same e = Leads-pure_at tt (opener.no_entry w e)

    new-balance :
        (id player : Uuid) (balance : Money) (at : Time) (w : Wallet)
        → Wallet.new id player balance at ≡ ok w
        → w.balance ≡ balance
    unfolding Wallet.new
    new-balance id player balance at w e = ground arith

    execute_body-Leads : Fits cmd.initial_balance → Leads H (execute_body (postgres v7) cmd) I
    unfolding execute_body
    execute_body-Leads fits = Leads-bind _ _ (Keeps-read _ (draw-Reads v7)) λ wallet_id.
        Leads-lift _ _ λ w e.
          Leads-bind _ _ (opener.create wallet_id cmd.player_id cmd.now w fits e) λ _.
            Leads-bind _ _
              (opened-Leads w (is_positive cmd.initial_balance) (new-balance _ _ _ _ w e)
                (ap is_positive (new-balance _ _ _ _ w e)))
              λ _. Keeps-pure _

    -- Whatever `OpenWallet` returns, what it leaves committed is what was there or what its writes lead to.
    pub open-either :
        (w : World) → Fits cmd.initial_balance → H w.db → EitherOf H I (execute (postgres v7) cmd w)
    unfolding execute
    open-either w fits h = within_tx-either _ (execute_body-Leads fits) w h

-- Whatever `OpenWallet` returns, what it leaves committed has the invariant.
pub open-keeps :
    (v7 : ℕ → Uuid) {I : Db → Type 0}
    → ((rec : OutboxRecord) → Leads I (Outbox.append rec) I)
    → {O : Wallet → Db → Type 0} → Openable I O
    → (cmd : OpenWalletCommand) (w : World) → Fits cmd.initial_balance
    → I w.db
    → I (execute (postgres v7) cmd w).1.db
open-keeps v7 {I = I} appends openable cmd w fits h =
    EitherOf-same I (execute (postgres v7) cmd w)
      (open-either v7 appends cmd (openable cmd.initial_balance) w fits h)
