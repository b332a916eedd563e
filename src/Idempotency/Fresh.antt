-- ===== src/Idempotency/Fresh.antt =====
-- internal/infra/postgres/wager_transaction_repository.go: what the unique indexes say of a row that `Create`
-- accepts.
use wager_service.Base.{
  arith, ◌≡◌, refl, subst, ◌&&◌, ◌==◌, str_eq_comm, Bool, false, ◌||◌, String, Option, none, some,
  List, [], ◌∷◌, any,
}
use wager_service.Ids.{Uuid}
use wager_service.Wager.{Transaction, is_blank}
use wager_service.Postgres.Database.{TxRow}
use wager_service.Postgres.Transactions.{
  row_of, has_id, has_idempotency_key, has_external_id, clashes, same_text, nullable, is_text,
}
use wager_service.Process.Request.{Command}
use wager_service.Idempotency.Rows.{Own, IsNew}

or_false : (a b : Bool) → (a || b) ≡ false → (a ≡ false) × (b ≡ false)
or_false a b h = ground arith

-- A column that is not NULL is compared as the query compares it.
same_text-nullable :
    (o : Option String) (t : String) → is_blank t ≡ false → same_text o (nullable t) ≡ is_text o t
same_text-nullable none t h = refl
same_text-nullable (some s) t h = ground (arith, str_eq_comm s t)

apart :
    (p e k : Option String) (id id' : Uuid) (provider external key : String)
    → (is_blank provider || (is_blank external || is_blank key)) ≡ false
    → (id == id'
        || same_text p (nullable provider)
          && (same_text e (nullable external) || same_text k (nullable key)))
      ≡ false
    → ((id == id') ≡ false)
      × ((is_text p provider && is_text k key) ≡ false)
      × ((is_text p provider && is_text e external) ≡ false)
apart p e k id id' provider external key named h =
    ground (
      arith,
      same_text-nullable p provider,
      same_text-nullable e external,
      same_text-nullable k key,
    )

-- the row `r` is apart from the command's
row_apart :
    (r : TxRow) (cmd : Command) (hash : String) (tx : Transaction)
    → Own cmd hash tx
    → clashes (row_of tx) r ≡ false
    → (has_id tx.id r ≡ false)
      × (has_idempotency_key cmd.provider_id cmd.idempotency_key r ≡ false)
      × (has_external_id cmd.provider_id cmd.external_transaction_id r ≡ false)
row_apart r cmd hash tx own h =
    subst
      (λ p.
        (has_id tx.id r ≡ false)
        × (has_idempotency_key p cmd.idempotency_key r ≡ false)
        × (has_external_id p cmd.external_transaction_id r ≡ false))
      own.provider
      (ground (
        arith,
        own.key,
        own.external,
        apart r.provider_id r.external_transaction_id r.idempotency_key r.id tx.id tx.provider_id
            cmd.external_transaction_id cmd.idempotency_key,
      ))

-- A created row clashes with no other, so none has its identifier, key or external identifier.
pub clashes-IsNew :
    (rows : List TxRow) (cmd : Command) (hash : String) (tx : Transaction)
    → Own cmd hash tx
    → any (clashes (row_of tx)) rows ≡ false
    → IsNew rows cmd tx.id
unfolding any
clashes-IsNew [] cmd hash tx own h = record { no_id = refl; no_key = refl; no_external = refl }
clashes-IsNew (r ∷ rows) cmd hash tx own h =
    let (here, rest) = or_false (clashes (row_of tx) r) (any (clashes (row_of tx)) rows) h in
    let (id, key, external) = row_apart r cmd hash tx own here in
    let ih = clashes-IsNew rows cmd hash tx own rest in
    record {
      no_id = rw (id, ih.no_id) refl;
      no_key = rw (key, ih.no_key) refl;
      no_external = rw (external, ih.no_external) refl;
    }
