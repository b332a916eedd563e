-- ===== src/Service/Reversals/Counted.antt =====
-- internal/infra/postgres/wager_transaction_repository.go: the table of transactions counts its reversals, by
-- the reference that they store and by the one that they were sent with.
use wager_service.Base.{
  arith, ℕ, ◌+◌, ◌≤◌, ◌≡◌, refl, sym, ap, subst, ◌∙◌, Bool, true, false, ◌&&◌, String, List, [],
  ◌∷◌, ◌++◌, Option, none, some, find, eq_iff, keep, length, inl, inr, ◌⊎◌, Bool-cases,
  if◌then◌else◌,
}
use wager_service.Ids.{Uuid, is_nil}
use wager_service.Wager.{Transaction, Status, refund, rollback, processed, status_eq}
use wager_service.Postgres.Database.{TxRow}
use wager_service.Postgres.Transactions
use wager_service.Postgres.Transactions.{row_of, reverses, is_text, has_external_id}
use wager_service.Idempotency.Outcome.{Referred, NamedAs, reversals, is_reversal}

-- A processed refund or rollback that a provider sent for the reference `e`, whatever the row stores as its
-- resolved reference.
abbrev reverses_named : String → String → TxRow → Bool
reverses_named p e r =
    (is_text r.provider_id p && is_text r.reference_external_transaction_id e)
    && (is_reversal r.kind && status_eq r.status processed)

abbrev pub reversals_named : String → String → List TxRow → ℕ
reversals_named p e rows = length (keep (reverses_named p e) rows)

-- A reference is reversed at most once: by the identifier that the reversals store, and by the provider and
-- external identifier that they were sent with.
pub AtMostOnce : List TxRow → Type 0
AtMostOnce rows =
    ((id : Uuid) → reversals id rows ≤ 1) × ((p e : String) → reversals_named p e rows ≤ 1)

-- The reversals that name a row store its identifier.
abbrev Covers : List TxRow → String → String → Option TxRow → Type 0
Covers rows p e none = reversals_named p e rows ≡ 0
Covers rows p e (some ref) = reversals_named p e rows ≤ reversals ref.id rows

-- what the history keeps
unfoldable pub Kept : List TxRow → Type 0
Kept rows =
    ((id : Uuid) → reversals id rows ≤ 1)
    × ((p e : String) → Covers rows p e (find (has_external_id p e) rows))

-- what one row more adds
one_of : Uuid → TxRow → ℕ
one_of id r = (if reverses id refund r then 1 else 0) + (if reverses id rollback r then 1 else 0)

length-keep-append :
    (p : TxRow → Bool) (rows : List TxRow) (r : TxRow)
    → length (keep p (rows ++ r ∷ [])) ≡ length (keep p rows) + (if p r then 1 else 0)
unfolding keep
length-keep-append p [] r = ground arith
length-keep-append p (x ∷ rows) r = ground (arith, length-keep-append p rows r)

reversals-append :
    (id : Uuid) (rows : List TxRow) (r : TxRow)
    → reversals id (rows ++ r ∷ []) ≡ reversals id rows + one_of id r
unfolding one_of
reversals-append id rows r = omega (
  arith,
  length-keep-append (reverses id refund) rows r,
  length-keep-append (reverses id rollback) rows r,
)

one_of-le : (id : Uuid) (r : TxRow) → one_of id r ≤ 1
unfolding one_of
one_of-le id r = ground arith

status_eq→≡ : (s : Status) → status_eq s processed ≡ true → s ≡ processed
status_eq→≡ processed h = refl
status_eq→≡ _ h = cc

-- A row that counts is that of a processed reversal of `id`.
not_done :
    (id : Uuid) (tx : Transaction)
    → status_eq tx.status processed ≡ false
    → one_of id (row_of tx) ≡ 0
unfolding one_of
not_done id tx h = ground arith

not_reversing :
    (id : Uuid) (tx : Transaction)
    → (Transactions.is_id (Transactions.nullable_uuid tx.resolved_reference_transaction_id) id
        && is_reversal tx.kind)
      ≡ false
    → one_of id (row_of tx) ≡ 0
unfolding one_of
not_reversing id tx h = ground arith

same_row : {A : Type 0} {a b : A} → some a ≡ some b → a ≡ b
same_row e = cc

none_or_some : {A : Type 0} {a : A} → none ≡ some a → ⊥
none_or_some e = cc

named_in : String → String → TxRow → ℕ
named_in p e r = if reverses_named p e r then 1 else 0

named-append :
    (p e : String) (rows : List TxRow) (r : TxRow)
    → reversals_named p e (rows ++ r ∷ []) ≡ reversals_named p e rows + named_in p e r
unfolding named_in
named-append p e rows r = length-keep-append (reverses_named p e) rows r

find-kept :
    (p : TxRow → Bool) (rows : List TxRow) (r row : TxRow)
    → find p rows ≡ some row
    → find p (rows ++ r ∷ []) ≡ some row
unfolding find
find-kept p [] r row h = absurd cc
find-kept p (x ∷ rows) r row h = ground (arith, find-kept p rows r row)

is_text-nullable : (s t : String) → is_text (Transactions.nullable s) t ≡ true → s ≡ t
is_text-nullable s t h = ground (arith, eq_iff s t)

-- what a stored identifier adds to the count of that identifier, and of no other
stored-one_of :
    (tx : Transaction) (id : Uuid)
    → tx.resolved_reference_transaction_id ≡ some id
    → is_nil id ≡ false
    → (is_reversal tx.kind && status_eq tx.status processed) ≡ true
    → one_of id (row_of tx) ≡ 1
unfolding one_of
stored-one_of tx id e real h = rw e (ground arith)

stored-same :
    (o : Option Uuid) (i id : Uuid)
    → o ≡ some i
    → Transactions.is_id (Transactions.nullable_uuid o) id ≡ true
    → i ≡ id
stored-same o i id e h = ground arith

-- What a processed reversal refers to, in the words of its own transaction.
abbrev pub Refers : List TxRow → Transaction → Type 0
Refers rows tx =
    tx.status ≡ processed
    → is_reversal tx.kind ≡ true
    → Referred rows tx.provider_id tx.reference_external_transaction_id
        tx.resolved_reference_transaction_id

and_parts : {a b : Bool} → (a && b) ≡ true → (a ≡ true) × (b ≡ true)
and_parts h = (ground arith, ground arith)

module _ (rows : List TxRow) (tx : Transaction) (refers : Refers rows tx) where
  module _ (id : Uuid) where
    new_or_none : (one_of id (row_of tx) ≡ 0) ⊎ (reversals id rows ≡ 0)
    new_or_none = elim (Bool-cases (status_eq tx.status processed)) [
      | inr e ↦ inl (not_done id tx e)
      | inl done ↦
          elim (Bool-cases (
            Transactions.is_id (Transactions.nullable_uuid tx.resolved_reference_transaction_id) id
            && is_reversal tx.kind)) [
              | inl e ↦
                  let (stored, kind) = and_parts e in
                  let r = refers (status_eq→≡ tx.status done) kind in
                  inr (
                    subst (λ i. reversals i rows ≡ 0)
                      (stored-same tx.resolved_reference_transaction_id r.id id r.stored stored)
                      r.none_yet)
              | inr e ↦ inl (not_reversing id tx e)
            ]
    ]

    one-more : reversals id rows ≤ 1 → reversals id (rows ++ row_of tx ∷ []) ≤ 1
    one-more h = elim new_or_none [
      | inl e ↦ omega (arith, reversals-append id rows (row_of tx), e)
      | inr e ↦ omega (arith, reversals-append id rows (row_of tx), one_of-le id (row_of tx), e)
    ]

  module _ (p e : String) where
    -- what the row adds to the reversals that name the reference, by the row that the reference names
    abbrev Adds : Option TxRow → Type 0
    Adds none = named_in p e (row_of tx) ≡ 0
    Adds (some ref) = named_in p e (row_of tx) ≤ one_of ref.id (row_of tx)

    Adds-nothing : (o : Option TxRow) → reverses_named p e (row_of tx) ≡ false → Adds o
    unfolding named_in
    Adds-nothing none h = rw h refl
    Adds-nothing (some ref) h = rw h (omega arith)

    Adds-one :
        (id : Uuid) (o : Option TxRow)
        → NamedAs rows p e id
        → one_of id (row_of tx) ≡ 1
        → find (has_external_id p e) rows ≡ o
        → Adds o
    unfolding named_in
    Adds-one id none named one found = absurd (none_or_some (sym found ∙ named.found))
    Adds-one id (some ref) named one found =
        let same = named.same ∙ ap (λ r. r.id) (same_row (sym named.found ∙ found)) in
        ground (arith, subst (λ i. one_of i (row_of tx) ≡ 1) same one)

    adds : (o : Option TxRow) → find (has_external_id p e) rows ≡ o → Adds o
    adds o found = elim (Bool-cases (reverses_named p e (row_of tx))) [
      | inr h ↦ Adds-nothing o h
      | inl h ↦
          let (texts, reversal) = and_parts h in
          let (provider, external) = and_parts texts in
          let (kind, done) = and_parts reversal in
          let r = refers (status_eq→≡ tx.status done) kind in
          Adds-one r.id o
            (subst (λ p. NamedAs rows p e r.id) (is_text-nullable tx.provider_id p provider)
              (subst (λ e. NamedAs rows tx.provider_id e r.id)
                (is_text-nullable tx.reference_external_transaction_id e external) r.named))
            (stored-one_of tx r.id r.stored (ap is_nil r.named.same ∙ r.named.real) reversal) found
    ]

    Covers-none :
        (o : Option TxRow) (rows : List TxRow) → reversals_named p e rows ≡ 0 → Covers rows p e o
    Covers-none none rows h = h
    Covers-none (some ref) rows h = omega (arith, h)

    Covers-append :
        (o : Option TxRow)
        → find (has_external_id p e) rows ≡ o
        → Covers rows p e o
        → Covers (rows ++ row_of tx ∷ []) p e (find (has_external_id p e) (rows ++ row_of tx ∷ []))
    Covers-append none found h =
        Covers-none (find (has_external_id p e) (rows ++ row_of tx ∷ [])) (rows ++ row_of tx ∷ [])
          (omega (arith, named-append p e rows (row_of tx), h, adds none found))
    Covers-append (some ref) found h =
        subst (Covers (rows ++ row_of tx ∷ []) p e)
          (sym (find-kept (has_external_id p e) rows (row_of tx) ref found))
          (omega (
            arith,
            named-append p e rows (row_of tx),
            reversals-append ref.id rows (row_of tx),
            h,
            adds (some ref) found,
          ))

  pub appended-Kept : Kept rows → Kept (rows ++ row_of tx ∷ [])
  unfolding Kept
  appended-Kept h = (
    λ id. one-more id (h.0 id),
    λ p e. Covers-append p e (find (has_external_id p e) rows) refl (h.1 p e),
  )

covered :
    (rows : List TxRow) (p e : String) (o : Option TxRow)
    → ((id : Uuid) → reversals id rows ≤ 1)
    → Covers rows p e o
    → reversals_named p e rows ≤ 1
covered rows p e none h c = omega (arith, c)
covered rows p e (some ref) h c = omega (arith, c, h ref.id)

pub Kept-AtMostOnce : (rows : List TxRow) → Kept rows → AtMostOnce rows
unfolding Kept AtMostOnce
Kept-AtMostOnce rows h =
    (h.0, λ p e. covered rows p e (find (has_external_id p e) rows) h.0 (h.1 p e))
