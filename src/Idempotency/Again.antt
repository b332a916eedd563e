-- ===== src/Idempotency/Again.antt =====
-- internal/application/process_wager_transaction.go: an operation that is sent a second time.
use wager_service.Base.{
  arith, ℕ, ◌≡◌, ◌≢◌, refl, ap, sym, subst, ◌∙◌, Bool, true, false, ◌&&◌, ◌||◌, String, none, some,
  List, [], ◌∷◌, ◌++◌, find, any, find-append, any-find, eq_iff, inl, inr,
}
use wager_service.Ids.{Uuid, Time}
use wager_service.Errors.{Result, ok}
use wager_service.Money.{normalize_currency}
use wager_service.Wager.{Transaction, loss, is_blank}
use wager_service.Ports.{nil_if_missing}
use wager_service.Postgres.{postgres}
use wager_service.Postgres.Database.{World, TxRow}
use wager_service.Postgres.Transactions
use wager_service.Postgres.Transactions.{
  row_of, nullable_uuid, has_idempotency_key, has_external_id, scan_found, is_text, nullable,
}
use wager_service.Postgres.RoundTrip.{InCurrency, kept, rehydrate-row_of}
use wager_service.Process.{execute}
use wager_service.Process.Replay.{answer, execute-known}
use wager_service.Process.Request.{
  Command, ProcessResult, CanonicalPayload, canonical_payload_from, result_from_transaction,
}
use wager_service.Idempotency.Outcome.{Answered, Recorded}
use wager_service.Idempotency.Execute.{execute-Answered}

-- The appended row is the one that is found, where no earlier row passes the test.
find-appended :
    (p : TxRow → Bool) (rows : List TxRow) (r : TxRow)
    → any p rows ≡ false
    → p r ≡ true
    → find p (rows ++ r ∷ []) ≡ some r
find-appended p rows r old new = ground (arith, find-append p rows r, any-find p rows)

-- A text column that is not empty meets the query for its text.
both_found :
    (p e k h P E K : String)
    → (is_blank p || (is_blank e || (is_blank k || is_blank h))) ≡ false
    → p ≡ P
    → e ≡ E
    → k ≡ K
    → ((is_text (nullable p) P && is_text (nullable k) K) ≡ true)
      × ((is_text (nullable p) P && is_text (nullable e) E) ≡ true)
both_found p e k h P E K named hp he hk = ground (arith, eq_iff p P, eq_iff e E, eq_iff k K)

Recorded-fresh :
    {rows₀ rows : List TxRow} {cmd : Command} {hash : String} {r : ProcessResult}
    → Answered rows₀ cmd hash r rows
    → r.idempotent_replay ≡ false
    → Recorded rows₀ cmd hash r rows
Recorded-fresh (inl (replayed, same)) fresh = cc
Recorded-fresh (inr (new, rec)) fresh = rec

module _ (rows₀ : List TxRow) (cmd : Command) (hash : String) (r : ProcessResult)
    (rows : List TxRow) (rec : Recorded rows₀ cmd hash r rows)
    (currency : normalize_currency cmd.amount.currency ≡ ok cmd.amount.currency)
    (other : cmd.kind ≢ loss) where
  read_back : Transactions.rehydrate_row (row_of rec.tx) ≡ ok (kept rec.tx)
  read_back =
      rehydrate-row_of rec.tx rec.own.identified
        (subst (λ m. normalize_currency m.currency ≡ ok m.currency) (sym rec.own.money) currency)
        (subst (λ m. InCurrency rec.tx.resulting_balance m.currency) (sym rec.own.money)
          (rec.balance other))

  own_key : has_idempotency_key cmd.provider_id cmd.idempotency_key (row_of rec.tx) ≡ true
  own_key = (both_found _ _ _ _ _ _ _ rec.own.named rec.own.provider rec.own.external rec.own.key).0

  own_external : has_external_id cmd.provider_id cmd.external_transaction_id (row_of rec.tx) ≡ true
  own_external =
      (both_found _ _ _ _ _ _ _ rec.own.named rec.own.provider rec.own.external rec.own.key).1

  abbrev known : Transaction
  known = kept rec.tx

  found_by_key :
      (w : World)
      → w.db.transactions ≡ rows
      → (Transactions.find_by_idempotency_key cmd.provider_id cmd.idempotency_key w).0 ≡ ok known
  unfolding Transactions.find_by_idempotency_key
  found_by_key w e =
      rw
        (
          e ∙ rec.appended,
          find-appended (has_idempotency_key cmd.provider_id cmd.idempotency_key) rows₀
              (row_of rec.tx) rec.new.no_key own_key,
        )
        read_back

  found_by_external :
      (w : World)
      → w.db.transactions ≡ rows
      → (Transactions.find_by_provider_and_external_id cmd.provider_id cmd.external_transaction_id
          w).0
        ≡ ok known
  unfolding Transactions.find_by_provider_and_external_id
  found_by_external w e =
      rw
        (
          e ∙ rec.appended,
          find-appended (has_external_id cmd.provider_id cmd.external_transaction_id) rows₀
              (row_of rec.tx) rec.new.no_external own_external,
        )
        read_back

  read_off :
      (cmd' : Command)
      → cmd'.idempotency_key ≡ cmd.idempotency_key
      → answer cmd' hash (ok (some known)) known ≡ ok (result_from_transaction known true)
  read_off cmd' same = ground (
    arith,
    rec.own.key,
    rec.own.payload,
    eq_iff rec.tx.idempotency_key cmd'.idempotency_key,
    eq_iff rec.tx.payload_hash hash,
  )

  answer-known :
      (cmd' : Command)
      → cmd'.idempotency_key ≡ cmd.idempotency_key
      → answer cmd' hash (ok (some known)) known ≡ ok (record r { idempotent_replay = true })
  answer-known cmd' same =
      read_off cmd' same
      ∙ ap {A = ProcessResult} (λ q. ok (record q { idempotent_replay = true })) (sym rec.answer)

-- An operation that was carried out and is sent again, at any time and with any correlation identifier, is
-- answered as it was the first time, now marked as a replay, and the database and the identifiers stay
-- as they are: a bet is debited once however often it arrives. The currency is one that `Money`
-- accepts, and the operation is no loss, whose stored balance may be in another currency.
pub execute-again :
    (v7 : ℕ → Uuid) (canonical_hash : CanonicalPayload → Result String) (cmd : Command)
    (hash : String) (w w' : World) (r : ProcessResult) (correlation_id : Uuid) (now : Time)
    → cmd.inbox ≡ none
    → canonical_hash (canonical_payload_from cmd) ≡ ok hash
    → normalize_currency cmd.amount.currency ≡ ok cmd.amount.currency
    → cmd.kind ≢ loss
    → execute (postgres v7) canonical_hash cmd w ≡ (ok r, w')
    → r.idempotent_replay ≡ false
    → execute
        (postgres v7)
        canonical_hash
        (record cmd { correlation_id = correlation_id; now = now })
        w'
      ≡ (ok (record r { idempotent_replay = true }), w')
execute-again v7 canonical_hash cmd hash w w' r correlation_id now direct hashed currency other e
      fresh =
    let rec = Recorded-fresh (execute-Answered v7 canonical_hash cmd hash w w' r hashed e) fresh in
    let again : Command = record cmd { correlation_id = correlation_id; now = now } in
    let key =
      found_by_key w.db.transactions cmd hash r w'.db.transactions rec currency other w' refl in
    let external =
      found_by_external w.db.transactions cmd hash r w'.db.transactions rec currency other w'
        refl in
    let tx = known w.db.transactions cmd hash r w'.db.transactions rec currency other in
    execute-known v7 canonical_hash again hash tx w' direct hashed key
    ∙ ap (λ x. (answer again hash (nil_if_missing x) tx, w')) external
    ∙ ap (λ x. (x, w'))
        (answer-known w.db.transactions cmd hash r w'.db.transactions rec currency other again refl)
