-- ===== src/Bank/Openings.antt =====
-- internal/application/open_wallet.go: `Execute` against the abstract bank.
use wager_service.Base.{
  arith, ℕ, ◌≡◌, refl, sym, false, none, List, [], ◌∷◌, ◌++◌, find, any, inl, inr, ◌⊎◌,
}
use wager_service.Base.Int.{pos, ◌≤ℤ◌}
use wager_service.Ids.{Uuid, Time}
use wager_service.Errors.{Result, ok, err}
use wager_service.Money.{Money}
use wager_service.Money.Arithmetic.{Fits}
use wager_service.Wallet
use wager_service.Wallet.{Wallet}
use wager_service.Ledger.{Entry}
use wager_service.Postgres.{postgres}
use wager_service.Postgres.Database.{Db, World}
use wager_service.Postgres.Wallets
use wager_service.Postgres.Ledgers
use wager_service.OpenWallet.{OpenWalletCommand, OpenWalletResult, execute}
use wager_service.Invariants.Triple.{Leads, EitherOf}
use wager_service.Invariants.Stable.{Records}
use wager_service.Invariants.Tables.{OnTables-Records}
use wager_service.Invariants.Open.{Opener, open-either}
use wager_service.Invariants.Opening.{no-row}
use wager_service.Bank.{Unmoved, Opened}
use wager_service.Bank.Tables.{bank_of, bank-append, bank-same}

entry-Wallets :
    (T : List Wallet → Type 0) (e : Entry)
    → Leads (λ db. T db.wallets) (Ledgers.append e) (λ db. T db.wallets)
unfolding Ledgers.append
entry-Wallets T e = record { at = λ world h. ground (arith, h) }

module _ (rows₀ : List Wallet) (balance : Money) where
  -- the row that an opening adds
  record Added (w : Wallet) (rows : List Wallet) : Type 0 where
    table : rows ≡ rows₀ ++ Wallets.stored w ∷ []
    free : find (Wallets.has_id w.id) rows₀ ≡ none
    initial : w.balance ≡ balance
    solvent : pos 0 ≤ℤ balance.minor_units

  abbrev Before : Db → Type 0
  Before db = db.wallets ≡ rows₀

  abbrev Between : Wallet → Db → Type 0
  Between w db = Added w db.wallets

  abbrev After : Db → Type 0
  After db = (w : Wallet) × Added w db.wallets

  new-balance :
      (id player : Uuid) (at : Time) (w : Wallet)
      → Wallet.new id player balance at ≡ ok w
      → w.balance ≡ balance
  unfolding Wallet.new
  new-balance id player at w e = ground arith

  added :
      (w : Wallet) (rows : List Wallet)
      → rows ≡ rows₀
      → any (Wallets.clashes w) rows ≡ false
      → w.balance ≡ balance
      → pos 0 ≤ℤ balance.minor_units
      → Added w (rows ++ Wallets.stored w ∷ [])
  added w rows same apart e solvent = record {
    table = rw same refl;
    free = no-row w rows₀ (rw (sym same) apart);
    initial = e;
    solvent = solvent;
  }

  create-Leads : (w : Wallet) → w.balance ≡ balance → Leads Before (Wallets.create w) (Between w)
  unfolding Wallets.create
  create-Leads w e = record { at = λ world h. ground (arith, added w world.db.wallets h) }

  -- nothing but the wallets matters from here on
  Added-Records : (w : Wallet) → Records (Between w)
  Added-Records w = OnTables-Records (λ rows ledger. Added w rows)

  After-Records : Records After
  After-Records = OnTables-Records (λ rows ledger. (w : Wallet) × Added w rows)

  After-Opener : Opener balance Before Between After
  After-Opener = record {
    create = λ id player at w fits e. create-Leads w (new-balance id player at w e);
    tx_create = λ w tx k. (Added-Records w).tx_create tx;
    no_entry = λ w e db h. (w, h);
    entry = λ w e opens. record {
      at = λ world h. (entry-Wallets (λ rows. (w : Wallet) × Added w rows) e).at world (w, h);
    };
  }

After-Opened :
    (rows rows' : List Wallet) (cmd : OpenWalletCommand) (w : Wallet)
    → Added rows cmd.initial_balance w rows'
    → Opened cmd (bank_of rows) (bank_of rows')
After-Opened rows rows' cmd w a = record {
  id = w.id;
  free = rw a.free refl;
  solvent = a.solvent;
  after = λ id. rw (a.table, sym a.initial) (bank-append rows (Wallets.stored w) a.free id);
}

opened :
    (cmd : OpenWalletCommand) (w : World) (r : Result OpenWalletResult) (w' : World)
    → EitherOf
        (Before w.db.wallets cmd.initial_balance)
        (After w.db.wallets cmd.initial_balance)
        (r, w')
    → Unmoved (bank_of w.db.wallets) (bank_of w'.db.wallets)
      ⊎ Opened cmd (bank_of w.db.wallets) (bank_of w'.db.wallets)
opened cmd w (ok r) w' (wallet, a) = inr (After-Opened w.db.wallets w'.db.wallets cmd wallet a)
opened cmd w (err e) w' same = inl (bank-same w.db.wallets w'.db.wallets same)

pub open-Step :
    (v7 : ℕ → Uuid) (cmd : OpenWalletCommand) (w : World)
    → Fits cmd.initial_balance
    → Unmoved (bank_of w.db.wallets) (bank_of (execute (postgres v7) cmd w).1.db.wallets)
      ⊎ Opened cmd (bank_of w.db.wallets) (bank_of (execute (postgres v7) cmd w).1.db.wallets)
open-Step v7 cmd w fits =
    let (r, w') = execute (postgres v7) cmd w in
    opened cmd w r w' (
      open-either v7 ((After-Records w.db.wallets cmd.initial_balance).outbox_append) cmd
        (After-Opener w.db.wallets cmd.initial_balance) w fits refl)
