-- ===== src/Invariants/Opening.antt =====
-- The writes of internal/application/open_wallet.go open the books of a wallet.
use mathlib.Core.List.{append-nil}
use wager_service.Base.{
  arith, ◌≡◌, refl, sym, Bool, true, false, Option, none, some, List, [], ◌∷◌, ◌++◌, ◌==◌, any,
  find, keep-append, find-append, if◌then◌else◌,
}
use wager_service.Base.Int.{ℤ, pos, ◌+ℤ◌, ◌≤ℤ◌, int_laws, eq_of_parts}
use wager_service.Ids.{Uuid, Time}
use wager_service.Errors.{ok}
use wager_service.Money.{Money, is_positive}
use wager_service.Money.Arithmetic.{Fits}
use wager_service.Wallet
use wager_service.Wallet.{Wallet}
use wager_service.Wager.{Transaction}
use wager_service.Ledger
use wager_service.Ledger.{Entry}
use wager_service.Postgres.Database.{Db, LedgerRow}
use wager_service.Postgres.Wallets
use wager_service.Postgres.Transactions
use wager_service.Postgres.Ledgers
use wager_service.Invariants.Triple.{Leads}
use wager_service.Invariants.Open.{Openable, Opens}
use wager_service.Invariants.Posting.{new-Enters}
use wager_service.Invariants.Balance.{Balanced, Accounted, Agrees, entries, wallet_row}

-- The books are in order but for the wallet `w`, which has its row and no entry yet.
pub record Opening (w : Wallet) (db : Db) : Type 0 where
  pub others : (id : Uuid) → (w.id == id) ≡ false → Accounted (wallet_row id db) (entries id db)
  pub row : wallet_row w.id db ≡ some (Wallets.stored w)
  pub no_entries : entries w.id db ≡ []
  pub solvent : pos 0 ≤ℤ w.balance.minor_units
  pub fits : Fits w.balance

-- No row has the id of a row that clashes with none.
pub no-row :
    (w : Wallet) (rows : List Wallet)
    → any (Wallets.clashes w) rows ≡ false
    → find (Wallets.has_id w.id) rows ≡ none
unfolding find any
no-row w [] h = refl
no-row w (r ∷ rows) h = ground (arith, no-row w rows)

abbrev created_db : Wallet → Db → Db
created_db w db = record db { wallets = db.wallets ++ Wallets.stored w ∷ [] }

created-others :
    (w : Wallet) (db : Db) (id : Uuid)
    → Balanced db
    → (w.id == id) ≡ false
    → Accounted (wallet_row id (created_db w db)) (entries id (created_db w db))
created-others w db id b n =
    ground (arith, b.at id, find-append (Wallets.has_id id) db.wallets (Wallets.stored w))

created-row :
    (w : Wallet) (rows : List Wallet)
    → find (Wallets.has_id w.id) rows ≡ none
    → find (Wallets.has_id w.id) (rows ++ Wallets.stored w ∷ []) ≡ some (Wallets.stored w)
created-row w rows h = ground (arith, find-append (Wallets.has_id w.id) rows (Wallets.stored w))

Accounted-none :
    (found : Option Wallet) (rows : List LedgerRow)
    → found ≡ none
    → Accounted found rows
    → rows ≡ []
Accounted-none none rows e a = a
Accounted-none (some row) rows e a = ground arith

created-Opening :
    (w : Wallet) (db : Db)
    → Balanced db
    → Fits w.balance
    → pos 0 ≤ℤ w.balance.minor_units
    → any (Wallets.clashes w) db.wallets ≡ false
    → Opening w (created_db w db)
created-Opening w db b fits nonneg h = record {
  others = λ id n. created-others w db id b n;
  row = created-row w db.wallets (no-row w db.wallets h);
  no_entries = Accounted-none _ _ (no-row w db.wallets h) (b.at w.id);
  solvent = nonneg;
  fits = fits;
}

create-Leads : (w : Wallet) → Fits w.balance → Leads Balanced (Wallets.create w) (Opening w)
unfolding Wallets.create
create-Leads w fits = record { at = λ world b. ground (arith, created-Opening w world.db b fits) }

same-Opening :
    (w : Wallet) (db db' : Db)
    → db'.wallets ≡ db.wallets
    → db'.ledger ≡ db.ledger
    → Opening w db
    → Opening w db'
same-Opening w db db' e e' o = record {
  others = λ id n. rw (e, e') (o.others id n);
  row = rw e o.row;
  no_entries = rw e' o.no_entries;
  solvent = o.solvent;
  fits = o.fits;
}

tx_create-Leads :
    (w : Wallet) (tx : Transaction) → Leads (Opening w) (Transactions.create tx) (Opening w)
unfolding Transactions.create
tx_create-Leads w tx = record { at = λ world o. ground (arith, same-Opening w world.db) }

new-Fits :
    (id player : Uuid) (balance : Money) (at : Time) (w : Wallet)
    → Fits balance
    → Wallet.new id player balance at ≡ ok w
    → Fits w.balance
unfolding Wallet.new
new-Fits id player balance at w fits e = ground arith

-- The opening entry posts the whole balance.
opening_entry :
    (w : Wallet) (e : Entry)
    → Opens w e
    → (e.wallet_id ≡ w.id) × (e.direction ≡ Ledger.credit) × (e.money ≡ w.balance)
opening_entry w e opens =
    let enters =
      new-Enters opens.entry_id w.id opens.transaction_id Ledger.credit w.balance opens.zero
        w.balance opens.at e opens.entered in
    (enters.wallet, enters.way, enters.money)

+ℤ_zero : (a : ℤ) → a +ℤ pos 0 ≡ a
+ℤ_zero a = omega int_laws

signed_credit :
    (r : LedgerRow) → r.direction ≡ Ledger.credit → Ledgers.signed_units r ≡ r.amount_minor_units
signed_credit r e = ground arith

own_opening :
    (w : Wallet) (e : Entry)
    → Opens w e
    → pos 0 ≤ℤ w.balance.minor_units
    → Fits w.balance
    → Agrees (Wallets.stored w) (Ledgers.row_of e ∷ [])
own_opening w e opens nonneg fits =
    let (_, way, money) = opening_entry w e opens in
    record {
      sum =
          rw
            (
              +ℤ_zero (Ledgers.signed_units (Ledgers.row_of e)),
              signed_credit (Ledgers.row_of e) way,
              money,
            )
            refl;
      solvent = nonneg;
      fits = fits;
      currency = (rw money refl, tt);
    }

-- the wallet's own row and entries
Accounted-own :
    (w : Wallet) (id : Uuid) (db : Db) (more rows : List LedgerRow)
    → Opening w db
    → (w.id == id) ≡ true
    → more ≡ rows
    → Agrees (Wallets.stored w) rows
    → Accounted (wallet_row id db) (entries id db ++ more)
Accounted-own w id db more rows o h e a = ground (arith, o.row, o.no_entries)

entry_at :
    (w : Wallet) (e : Entry) (db : Db) (id : Uuid) (same : Bool)
    → Opens w e
    → Opening w db
    → (w.id == id) ≡ same
    → Accounted (wallet_row id db) (entries id db ++ (if same then Ledgers.row_of e ∷ [] else []))
entry_at w e db id true opens o h =
    Accounted-own w id db _ _ o h refl (own_opening w e opens o.solvent o.fits)
entry_at w e db id false opens o h = rw (append-nil (entries id db)) (o.others id h)

abbrev entered_db : Entry → Db → Db
entered_db e db = record db { ledger = db.ledger ++ Ledgers.row_of e ∷ [] }

entered-Balanced :
    (w : Wallet) (e : Entry) (db : Db) → Opens w e → Opening w db → Balanced (entered_db e db)
entered-Balanced w e db opens o = record {
  at = λ id.
      rw (keep-append (Ledgers.of_wallet id) db.ledger (Ledgers.row_of e))
        (entry_at w e db id (e.wallet_id == id) opens o (rw (opening_entry w e opens).0 refl));
}

entry-Leads : (w : Wallet) (e : Entry) → Opens w e → Leads (Opening w) (Ledgers.append e) Balanced
unfolding Ledgers.append
entry-Leads w e opens = record {
  at = λ world o. ground (arith, entered-Balanced w e world.db opens o);
}

zero_balance :
    (w : Wallet)
    → pos 0 ≤ℤ w.balance.minor_units
    → is_positive w.balance ≡ false
    → w.balance.minor_units ≡ pos 0
zero_balance w h z = eq_of_parts w.balance.minor_units (pos 0) (ground arith)

none_at :
    (w : Wallet) (db : Db) (id : Uuid) (same : Bool)
    → Opening w db
    → is_positive w.balance ≡ false
    → (w.id == id) ≡ same
    → Accounted (wallet_row id db) (entries id db)
none_at w db id true o z h = rw (sym (append-nil (entries id db))) (
    Accounted-own w id db [] [] o h refl (record {
      sum = zero_balance w o.solvent z;
      solvent = o.solvent;
      fits = o.fits;
      currency = tt;
    }))
none_at w db id false o z h = o.others id h

pub Balanced-Openable : Openable Balanced Opening
Balanced-Openable balance = record {
  create = λ id player at w fits e. create-Leads w (new-Fits id player balance at w fits e);
  tx_create = λ w tx k. tx_create-Leads w tx;
  no_entry = λ w z db o. record { at = λ id. none_at w db id (w.id == id) o z refl };
  entry = entry-Leads;
}
