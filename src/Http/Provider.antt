-- ===== src/Http/Provider.antt =====
-- internal/infra/http/handlers.go and middleware.go: whose transactions a provider sees.
use wager_service.Base.{
  arith, ℕ, ◌≡◌, refl, subst, inl, inr, Option-cases, if◌then◌else◌, ◌∙◌, Bool, true, false, not,
  String, Option, none, some, find, find-test, eq_iff, str_eq,
}
use wager_service.Ids.{Uuid}
use wager_service.Errors.{Result, ok, err}
use wager_service.Money.{from_minor_units}
use wager_service.Wager
use wager_service.Wager.{Transaction}
use wager_service.Postgres.{postgres}
use wager_service.Postgres.Database.{World, TxRow}
use wager_service.Postgres.Transactions
use wager_service.Postgres.Transactions.{scan_found, has_external_id, rehydrate_row, deref}
use wager_service.Http.Responses.{Reply, TransactionResponse, refused}
use wager_service.Http.Lookups.{
  provider_or_empty, show_to, show, show_found, show_transaction, show_by_external_id,
}

abbrev pub OfProvider : String → Option TransactionResponse → Type 0
OfProvider p none = Unit
OfProvider p (some b) = b.provider_id ≡ p

-- What is shown is of that provider, and nothing is changed.
abbrev pub ShowsOwn : String → World → Reply TransactionResponse × World → Type 0
ShowsOwn p w (reply, w') = OfProvider p reply.body × (w' ≡ w)

show_to-OfProvider : (p : String) (r : Result Transaction) → OfProvider p (show_to p r).body
show_to-OfProvider p (err e) = tt
show_to-OfProvider p (ok tx) = ground (arith, eq_iff tx.provider_id p)

row_provider :
    (r : TxRow) (tx : Transaction) → rehydrate_row r ≡ ok tx → tx.provider_id ≡ deref r.provider_id
unfolding rehydrate_row from_minor_units Wager.rehydrate
row_provider r tx e = ground arith

selected_provider :
    (p external : String) (r : TxRow)
    → has_external_id p external r ≡ true
    → deref r.provider_id ≡ p
selected_provider p external r h = elim (Option-cases r.provider_id) [
  | inl e ↦ ground arith
  | inr (s, e) ↦ ground (arith, eq_iff s p)
]

show-OfProvider :
    (p : String) (r : Result Transaction)
    → ((tx : Transaction) → r ≡ ok tx → tx.provider_id ≡ p)
    → OfProvider p (show r).body
show-OfProvider p (err e) h = tt
show-OfProvider p (ok tx) h = h tx refl

scanned-OfProvider :
    (p external : String) (o : Option TxRow)
    → ((r : TxRow) → o ≡ some r → has_external_id p external r ≡ true)
    → OfProvider p (show (scan_found o)).body
scanned-OfProvider p external none h = tt
scanned-OfProvider p external (some r) h =
    show-OfProvider p (rehydrate_row r)
      λ tx e. row_provider r tx e ∙ selected_provider p external r (h r refl)

module _ (v7 : ℕ → Uuid) (parse_uuid : String → Option Uuid) (provider : Option String)
    (w : World) where
  abbrev me : String
  me = provider_or_empty provider

  show_found-ShowsOwn :
      (o : Option Uuid) → ShowsOwn me w (show_found (postgres v7) parse_uuid provider o w)
  unfolding Transactions.find_by_id
  show_found-ShowsOwn none = (tt, refl)
  show_found-ShowsOwn (some id) = (show_to-OfProvider me (Transactions.find_by_id id w).0, refl)

  external-ShowsOwn :
      (path external : String)
      → path ≡ me
      → OfProvider me (show (Transactions.find_by_provider_and_external_id path external w).0).body
  unfolding Transactions.find_by_provider_and_external_id
  external-ShowsOwn path external e =
      subst
        (λ p.
          OfProvider p
            (show (scan_found (find (has_external_id path external) w.db.transactions))).body)
        e
        (scanned-OfProvider path external (find (has_external_id path external) w.db.transactions)
          λ r found. find-test (has_external_id path external) w.db.transactions r found)

  checked_path :
      (b : Bool) (path external : String)
      → (b ≡ false → path ≡ me)
      → ShowsOwn me w (
          if b
          then (refused 403 "forbidden", w)
          else (let (r, s') = Transactions.find_by_provider_and_external_id path external w in
              (show r, s')))
  unfolding Transactions.find_by_provider_and_external_id
  checked_path true path external h = (tt, refl)
  checked_path false path external h = (external-ShowsOwn path external (h refl), refl)

  -- Whatever a provider asks for, by the identifier of a transaction or by a provider and an external
  -- identifier, it is shown no transaction but its own, and the service is as it was.
  pub lookups-ShowsOwn :
      (transaction_id path_provider external_id : String)
      → ShowsOwn me w (show_transaction (postgres v7) parse_uuid provider transaction_id w)
        × ShowsOwn me w
            (show_by_external_id (postgres v7) parse_uuid provider path_provider external_id w)
  unfolding show_transaction show_by_external_id
  lookups-ShowsOwn transaction_id path_provider external_id = (
    show_found-ShowsOwn (parse_uuid transaction_id),
    checked_path (not (str_eq path_provider me)) path_provider external_id
        (λ e. ground (arith, eq_iff path_provider me)),
  )
