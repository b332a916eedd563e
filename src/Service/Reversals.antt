-- ===== src/Service/Reversals.antt =====
-- The reversals of a transaction in the life of the service (internal/application).
pub mod Counted
use wager_service.Base.{
  arith, ℕ, ◌+◌, ◌≤◌, ◌≡◌, refl, sym, ap, subst, ◌∙◌, Bool, true, false, ◌&&◌, String, List, [],
  ◌∷◌, ◌++◌, All, Option, none, some, find, eq_iff, keep, length, inl, inr, ◌⊎◌, Bool-cases,
  if◌then◌else◌,
}
use wager_service.Ids.{Uuid, is_nil}
use wager_service.Errors.{Error, Result, ok, err}
use wager_service.Wallet.{Wallet}
use wager_service.Wager.{Transaction, Status, refund, rollback, opening, processed, status_eq}
use wager_service.Ports.{◌>>=◌}
use wager_service.Postgres.{postgres}
use wager_service.Postgres.Database.{Db, World, TxRow}
use wager_service.Postgres.Wallets
use wager_service.Postgres.Transactions
use wager_service.Postgres.Transactions.{row_of, reverses, is_text, has_external_id}
use wager_service.Process.{execute}
use wager_service.Process.Request.{Command, CanonicalPayload, ProcessResult, canonical_payload_from}
use wager_service.Invariants.Triple.{Leads}
use wager_service.Invariants.Open.{Openable, open-keeps}
use wager_service.Invariants.Schedule.{Unscheduled, run_once-idle}
use wager_service.Idempotency.Outcome.{
  Answered, Recorded, Referred, NamedAs, true_and_false, reversals, is_reversal, OnRows,
  outbox-OnRows, entry-OnRows,
}
use wager_service.Idempotency.Execute.{execute-Answered}
use wager_service.Http.Money.{execute-err}
use wager_service.Service.{
  Request, open_wallet, submit, resolve_pending, reconcile, InRange, Config, handle, serve, empty,
}
use wager_service.Service.Keeps.{handle-Unscheduled, reconcile-same}
use wager_service.Service.Reversals.Counted.{
  AtMostOnce, Kept, Refers, appended-Kept, Kept-AtMostOnce,
}

Recorded-Refers :
    (rows₀ rows : List TxRow) (cmd : Command) (hash : String) (r : ProcessResult)
    (rec : Recorded rows₀ cmd hash r rows)
    → Refers rows₀ rec.tx
Recorded-Refers rows₀ rows cmd hash r rec done reversal =
    subst
      (λ p.
        Referred rows₀ p rec.tx.reference_external_transaction_id
          rec.tx.resolved_reference_transaction_id)
      (sym rec.own.provider)
      (subst (λ e. Referred rows₀ cmd.provider_id e rec.tx.resolved_reference_transaction_id)
        (sym rec.own.reference) (rec.first done (ap is_reversal (sym rec.own.kind) ∙ reversal)))

recorded-Kept :
    (rows₀ rows : List TxRow) (cmd : Command) (hash : String) (r : ProcessResult)
    → Answered rows₀ cmd hash r rows
    → Kept rows₀
    → Kept rows
recorded-Kept rows₀ rows cmd hash r (inl (replayed, same)) h = subst Kept (sym same) h
recorded-Kept rows₀ rows cmd hash r (inr (new, rec)) h =
    subst Kept (sym rec.appended)
      (appended-Kept rows₀ rec.tx (Recorded-Refers rows₀ rows cmd hash r rec) h)

unhashed :
    (v7 : ℕ → Uuid) (canonical_hash : CanonicalPayload → Result String) (cmd : Command) (w : World)
    (x : Error)
    → canonical_hash (canonical_payload_from cmd) ≡ err x
    → (execute (postgres v7) canonical_hash cmd w).0 ≡ err x
unfolding execute ◌>>=◌
unhashed v7 canonical_hash cmd w x hashed = rw hashed refl

module _ (v7 : ℕ → Uuid) (canonical_hash : CanonicalPayload → Result String) (cmd : Command)
    (w : World) (h : Kept w.db.transactions) where
  hashed-Kept :
      (hash : String) (r : Result ProcessResult) (w' : World)
      → canonical_hash (canonical_payload_from cmd) ≡ ok hash
      → execute (postgres v7) canonical_hash cmd w ≡ (r, w')
      → Kept w'.db.transactions
  hashed-Kept hash (ok r) w' hashed e =
      recorded-Kept w.db.transactions w'.db.transactions cmd hash r
        (execute-Answered v7 canonical_hash cmd hash w w' r hashed e) h
  hashed-Kept hash (err x) w' hashed e =
      subst (λ db. Kept db.transactions)
        (sym (execute-err v7 canonical_hash cmd w x (ap (λ p. p.0) e)) ∙ ap (λ p. p.1.db) e) h

  submitted-Kept :
      (o : Result String)
      → canonical_hash (canonical_payload_from cmd) ≡ o
      → Kept (execute (postgres v7) canonical_hash cmd w).1.db.transactions
  submitted-Kept (ok hash) hashed = hashed-Kept hash _ _ hashed refl
  submitted-Kept (err x) hashed =
      subst (λ db. Kept db.transactions)
        (sym (execute-err v7 canonical_hash cmd w x (unhashed v7 canonical_hash cmd w x hashed))) h

-- An opening is no reversal.
opening-Refers : (rows : List TxRow) (tx : Transaction) → tx.kind ≡ opening → Refers rows tx
opening-Refers rows tx k done reversal = absurd (true_and_false (rw k refl) reversal)

abbrev I : Db → Type 0
I = OnRows Kept

create-Kept : (tx : Transaction) → tx.kind ≡ opening → Leads I (Transactions.create tx) I
unfolding Transactions.create
create-Kept tx k = record {
  at = λ w h.
      ground
        (arith, h, appended-Kept w.db.transactions tx (opening-Refers w.db.transactions tx k) h);
}

wallet-Kept : (wal : Wallet) → Leads I (Wallets.create wal) I
unfolding Wallets.create
wallet-Kept wal = record { at = λ w h. ground (arith, h) }

Kept-Openable : Openable I (λ w. I)
Kept-Openable balance = record {
  create = λ id player at w fits e. wallet-Kept w;
  tx_create = λ w tx k. create-Kept tx k;
  no_entry = λ w e db h. h;
  entry = λ w e opens. entry-OnRows Kept e;
}

handle-Kept :
    (c : Config) (r : Request) (w : World)
    → InRange r
    → Unscheduled w.db
    → Kept w.db.transactions
    → Kept (handle c r w).db.transactions
unfolding handle
handle-Kept c (open_wallet cmd) w fits u h =
    open-keeps c.v7 (outbox-OnRows Kept) Kept-Openable cmd w fits h
handle-Kept c (submit cmd) w fits u h =
    submitted-Kept c.v7 c.canonical_hash cmd w h (c.canonical_hash (canonical_payload_from cmd))
      refl
handle-Kept c (resolve_pending now n) w fits u h =
    rw (run_once-idle c.v7 c.policy now n w u, handle) h
handle-Kept c (reconcile id) w fits u h = rw (reconcile-same c.v7 id w, handle) h

served-Kept :
    (c : Config) (rs : List Request) (w : World)
    → All InRange rs
    → Unscheduled w.db
    → Kept w.db.transactions
    → Kept (serve c rs w).db.transactions
unfolding serve
served-Kept c [] w fits u h = h
served-Kept c (r ∷ rs) w fits u h =
    served-Kept c rs (handle c r w) fits.1 (handle-Unscheduled c r w fits.0 u)
      (handle-Kept c r w fits.0 u h)

none_in_empty : Kept []
unfolding Kept keep find
none_in_empty = (λ id. omega arith, λ p e. refl)

-- After any history of requests with `int64` amounts, starting with empty tables, at most one processed
-- refund or rollback stores each transaction as its resolved reference; and for each provider and external
-- identifier, at most one processed refund or rollback of that provider has named that identifier as its
-- reference, whatever it stored. So no bet is paid back twice and no win is taken back twice, whatever the
-- order of the refunds and rollbacks that providers send.
pub serve-AtMostOnce :
    (c : Config) (rs : List Request)
    → All InRange rs
    → AtMostOnce (serve c rs empty).db.transactions
serve-AtMostOnce c rs fits =
    Kept-AtMostOnce (serve c rs empty).db.transactions
      (served-Kept c rs empty fits tt none_in_empty)
