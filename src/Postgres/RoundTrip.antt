-- ===== src/Postgres/RoundTrip.antt =====
-- internal/infra/postgres/wager_transaction_repository.go: a transaction that is stored and read back.
use wager_service.Base.{
  ◌/◌, ◌*◌, arith, ap, sym, ◌≡◌, refl, false, ◌||◌, String, Option, none, some, eq_iff,
}
use wager_service.Ids.{is_nil}
use wager_service.Errors.{ok}
use wager_service.Money.{Money, from_minor_units, normalize_currency}
use wager_service.Wager
use wager_service.Wager.{Transaction, is_blank}
use wager_service.Postgres.Database.{to_micros}
use wager_service.Postgres.Transactions.{
  deref, nullable, nullable_uuid, resulting_balance_minor_units, rehydrate_balance, rehydrate_row,
  row_of,
}

-- A text is stored as NULL exactly when it is empty, so it is read back.
deref-nullable : (s : String) → deref (nullable s) ≡ s
deref-nullable s = ground (arith, eq_iff s "")

-- The currency of the balance is that of the row's one column.
abbrev pub InCurrency : Option Money → String → Type 0
InCurrency none c = Unit
InCurrency (some b) c = b.currency ≡ c

balance_back :
    (o : Option Money) (c : String)
    → normalize_currency c ≡ ok c
    → InCurrency o c
    → rehydrate_balance (resulting_balance_minor_units o) c ≡ ok o
unfolding from_minor_units
balance_back none c h k = refl
balance_back (some b) c h k =
    rw h (ap (λ c'. ok (some (record { minor_units = b.minor_units; currency = c' }))) (sym k))

-- What the row of a transaction keeps of it.
abbrev pub kept : Transaction → Transaction
kept tx = record tx {
  resolved_reference_transaction_id = nullable_uuid tx.resolved_reference_transaction_id;
  created_at = tx.created_at / 1000 * 1000;
  updated_at = tx.updated_at / 1000 * 1000;
}

-- A transaction that is stored is read back with every field as it was, but for two: its times of creation
-- and of update are cut to whole microseconds, and a resolved reference that is nil is read back as none.
-- This holds if its identifiers are not nil, its currency is one that `Money` accepts, and its resulting
-- balance, if there is one, is in that currency.
pub rehydrate-row_of :
    (tx : Transaction)
    → (is_nil tx.id || (is_nil tx.wallet_id || is_nil tx.player_id)) ≡ false
    → normalize_currency tx.money.currency ≡ ok tx.money.currency
    → InCurrency tx.resulting_balance tx.money.currency
    → rehydrate_row (row_of tx) ≡ ok (kept tx)
unfolding to_micros rehydrate_row from_minor_units Wager.rehydrate
rehydrate-row_of tx identified currency balance =
    rw
      (
        currency,
        balance_back tx.resulting_balance tx.money.currency currency balance,
        identified,
        deref-nullable tx.provider_id,
        deref-nullable tx.external_transaction_id,
        deref-nullable tx.idempotency_key,
        deref-nullable tx.payload_hash,
        deref-nullable tx.round_id,
        deref-nullable tx.game_id,
        deref-nullable tx.reference_external_transaction_id,
      )
      refl
