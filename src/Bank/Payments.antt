-- ===== src/Bank/Payments.antt =====
-- internal/application/process_wager_transaction.go: `Execute` against the abstract bank.
use wager_service.Base.{
  arith, ℕ, ◌≡◌, refl, sym, subst, ap, ◌∙◌, String, some, find, List, inl, inr, ◌⊎◌,
}
use wager_service.Base.Int.{ℤ}
use wager_service.Ids.{Uuid}
use wager_service.Errors.{Result, ok, err}
use wager_service.Money.{Money}
use wager_service.Money.Arithmetic.{Fits}
use wager_service.Wallet.{Wallet}
use wager_service.Ledger
use wager_service.Ledger.{Entry, Direction, debit, credit, other}
use wager_service.Postgres.{postgres}
use wager_service.Postgres.Database.{Db, World, LedgerRow}
use wager_service.Postgres.Wallets
use wager_service.Postgres.Ledgers
use wager_service.Process.{execute}
use wager_service.Process.Request.{Command, CanonicalPayload, ProcessResult}
use wager_service.Invariants.Stable.{Moves}
use wager_service.Invariants.Posting.{Posts, Moves-Posts, Enters, new-Enters, new-other}
use wager_service.Invariants.Balance.{Balanced}
use wager_service.Invariants.Books.{row-Agrees}
use wager_service.Invariants.Effect.{Effect, MovesOnce}
use wager_service.Invariants.Money.{execute-Effect}
use wager_service.Http.Money.{execute-err}
use wager_service.Bank.{Unmoved, Paid, put, paid}
use wager_service.Bank.Tables.{bank_of, bank-update, bank-same}

entered :
    (before after : Wallet) (e : Entry) (m : Moves before after e)
    → Enters after.id m.direction m.amount e
entered before after e m =
    new-Enters m.entry_id after.id m.transaction_id m.direction m.amount _ _ _ e m.entered

-- what a posted entry does to the balance
posted_balance :
    (before after : Wallet) (e : Entry) (direction : Direction) (m : Moves before after e)
    → m.direction ≡ direction
    → Posts before after (Ledgers.row_of e)
    → Enters after.id direction m.amount e
    → after.balance.minor_units ≡ (paid direction m.amount.minor_units before.balance).minor_units
posted_balance before after e debit m way p n = ground (arith, p.shift)
posted_balance before after e credit m way p n = ground (arith, p.shift)
posted_balance before after e (other s) m way p n = absurd (
    new-other m.entry_id after.id m.transaction_id s m.amount _ _ _ e (
      subst
        (λ d.
          Ledger.new m.entry_id after.id m.transaction_id d m.amount m.movement.balance_before
            m.movement.balance_after m.at
          ≡ ok e)
        way m.entered))

-- the amount of a payment comes in the currency of the wallet
posted_currency :
    (before after : Wallet) (e : Entry) (direction : Direction) (amount : Money)
    → Posts before after (Ledgers.row_of e)
    → Enters after.id direction amount e
    → amount.currency ≡ before.balance.currency
posted_currency before after e direction amount p n = rw (sym n.money) p.same_currency

paid_units :
    (direction : Direction) (units : ℤ) (m : Money) (u : ℤ)
    → u ≡ (paid direction units m).minor_units
    → paid direction units m ≡ record m { minor_units = u }
paid_units debit units m u e = rw e refl
paid_units _ units m u e = rw e refl

module _ (cmd : Command) (rows₀ : List Wallet) (ledger₀ : List LedgerRow) (rows : List Wallet)
    (ledger : List LedgerRow) (m : MovesOnce rows₀ ledger₀ cmd rows ledger)
    (p : Posts m.before m.after (Ledgers.row_of m.entry)) where
  enters : Enters m.after.id m.moves.direction m.moves.amount m.entry
  enters = entered m.before m.after m.entry m.moves

  balance :
      m.after.balance.minor_units
      ≡ (paid m.moves.direction cmd.amount.minor_units m.before.balance).minor_units
  balance =
      rw (sym m.amount)
        (posted_balance m.before m.after m.entry m.moves.direction m.moves refl p enters)

  put_back :
      Unmoved
        (put m.before.id
          (record m.before.balance { minor_units = m.after.balance.minor_units })
          (bank_of rows₀))
        (bank_of rows)
  put_back id = rw m.rows (
      bank-update rows₀ m.before m.after p.same_id
        (subst (λ i. find (Wallets.has_id i) rows₀ ≡ some m.before) (sym m.own) m.stored) id)

  after :
      Unmoved
        (put cmd.wallet_id
          (paid m.moves.direction cmd.amount.minor_units m.before.balance)
          (bank_of rows₀))
        (bank_of rows)
  after id =
      rw (sym m.own, paid_units m.moves.direction cmd.amount.minor_units m.before.balance _ balance)
        (put_back id)

  Posts-Paid : Paid cmd (bank_of rows₀) (bank_of rows)
  Posts-Paid = record {
    before = m.before.balance;
    direction = m.moves.direction;
    way = m.way;
    held = rw m.stored refl;
    currency = rw (sym m.amount) (posted_currency _ _ _ _ _ p enters);
    covered = rw (sym balance) p.solvent;
    after = after;
  }

paid_once :
    (cmd : Command) (w : World) (db : Db)
    → Balanced w.db
    → MovesOnce w.db.wallets w.db.ledger cmd db.wallets db.ledger
    → Paid cmd (bank_of w.db.wallets) (bank_of db.wallets)
paid_once cmd w db b m =
    let agrees = row-Agrees cmd.wallet_id w.db m.before m.stored b in
    Posts-Paid cmd w.db.wallets w.db.ledger db.wallets db.ledger m
      (Moves-Posts m.before m.after m.entry agrees.fits agrees.solvent m.moves)

-- an answer, or an error
answered :
    (cmd : Command) (w : World) (db : Db) (r : ProcessResult)
    → Balanced w.db
    → Effect w.db.wallets w.db.ledger cmd r db
    → Unmoved (bank_of w.db.wallets) (bank_of db.wallets)
      ⊎ Paid cmd (bank_of w.db.wallets) (bank_of db.wallets)
answered cmd w db r b (inl (still, same)) = inl (bank-same w.db.wallets db.wallets same.0)
answered cmd w db r b (inr (fresh, m)) = inr (paid_once cmd w db b m)

module _ (v7 : ℕ → Uuid) (canonical_hash : CanonicalPayload → Result String) (cmd : Command) where
  executed :
      (w w' : World) (r : Result ProcessResult)
      → Fits cmd.amount
      → Balanced w.db
      → execute (postgres v7) canonical_hash cmd w ≡ (r, w')
      → Unmoved (bank_of w.db.wallets) (bank_of w'.db.wallets)
        ⊎ Paid cmd (bank_of w.db.wallets) (bank_of w'.db.wallets)
  executed w w' (ok r) fits b e =
      answered cmd w w'.db r b (execute-Effect v7 canonical_hash cmd w w' r fits e)
  executed w w' (err x) fits b e = inl (
      bank-same w.db.wallets w'.db.wallets (
        ap (λ p. p.1.db.wallets) (sym e)
        ∙ ap (λ db. db.wallets) (execute-err v7 canonical_hash cmd w x (ap (λ p. p.0) e))))

  pub submit-Step :
      (w : World)
      → Fits cmd.amount
      → Balanced w.db
      → Unmoved
          (bank_of w.db.wallets)
          (bank_of (execute (postgres v7) canonical_hash cmd w).1.db.wallets)
        ⊎ Paid cmd
            (bank_of w.db.wallets)
            (bank_of (execute (postgres v7) canonical_hash cmd w).1.db.wallets)
  submit-Step w fits b =
      executed w (execute (postgres v7) canonical_hash cmd w).1
        (execute (postgres v7) canonical_hash cmd w).0 fits b refl
