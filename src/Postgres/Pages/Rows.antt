-- ===== src/Postgres/Pages/Rows.antt =====
-- internal/infra/postgres/ledger_repository.go: the order of the rows of a ledger, and how they are read.
use wager_service.Base.{
  arith, ℕ, zero, suc, ◌≡◌, refl, ap, Bool, true, false, List, [], ◌∷◌, ◌++◌, ◌==◌, All, take, ◌⊎◌,
}
use wager_service.Base.Sorting.{Order, AllApart}
use wager_service.Errors.{Result, ok, err, ◌>>=◌}
use wager_service.Money.{from_minor_units}
use wager_service.Ledger
use wager_service.Ledger.{Entry}
use wager_service.Postgres.Database.{LedgerRow}
use wager_service.Postgres.Pages.{LedgerCursor, is_after, comes_before, entry_of, scan_entries}

-- the cursor of a row
abbrev pub here : LedgerRow → LedgerCursor
here r = record { created_at = r.created_at; id = r.id }

abbrev pub earlier : LedgerRow → LedgerRow → Bool
earlier r = is_after (here r)

pub earlier-Order : Order comes_before earlier
earlier-Order = record {
  trans = λ x y z h k. ground arith;
  asym = λ x y h. ground arith;
  le_is = λ x y. ground arith;
}

-- Rows with different identifiers, as the primary key has it.
abbrev pub UniqueIds : List LedgerRow → Type 0
UniqueIds [] = Unit
UniqueIds (r ∷ rows) = All (λ s. (r.id == s.id) ≡ false) rows × UniqueIds rows

apart_from :
    (r : LedgerRow) (rows : List LedgerRow)
    → All (λ s. (r.id == s.id) ≡ false) rows
    → All (λ s. (earlier r s ≡ true) ⊎ (earlier s r ≡ true)) rows
apart_from r [] h = tt
apart_from r (s ∷ rows) (p, h) = (ground arith, apart_from r rows h)

pub UniqueIds-AllApart :
    (rows : List LedgerRow) → UniqueIds rows → AllApart comes_before earlier earlier-Order rows
UniqueIds-AllApart [] h = tt
UniqueIds-AllApart (r ∷ rows) (p, h) = (apart_from r rows p, UniqueIds-AllApart rows h)

bound_ok :
    {A B : Type 0} (x : Result A) (f : A → Result B) (b : B)
    → (x >>= f) ≡ ok b
    → (a : A) × (x ≡ ok a) × (f a ≡ ok b)
bound_ok (ok a) f b e = (a, refl, e)
bound_ok (err x) f b e = cc

-- what is read is read row by row
scan-cons :
    (r : LedgerRow) (rows : List LedgerRow) (es : List Entry)
    → scan_entries (r ∷ rows) ≡ ok es
    → (e : Entry) × (es' : List Entry) × (entry_of r ≡ ok e)
      × (scan_entries rows ≡ ok es')
      × (es ≡ e ∷ es')
unfolding scan_entries
scan-cons r rows es h =
    let (e, one, rest) = bound_ok (entry_of r) _ es h in
    let (es', more, last) = bound_ok (scan_entries rows) _ es rest in
    (e, es', one, more, ground (arith, last))

pub scan-take :
    (n : ℕ) (rows : List LedgerRow) (es : List Entry)
    → scan_entries rows ≡ ok es
    → scan_entries (take n rows) ≡ ok (take n es)
unfolding scan_entries
scan-take zero rows es h = refl
scan-take (suc n) [] [] h = refl
scan-take (suc n) [] (e ∷ es) h = cc
scan-take (suc n) (r ∷ rows) es h =
    let (e, es', one, more, same) = scan-cons r rows es h in
    rw (same, one, scan-take n rows es' more) refl

-- the rows of a list of entries with a middle
pub scan-split :
    (rows : List LedgerRow) (pre : List Entry) (l : Entry) (post : List Entry)
    → scan_entries rows ≡ ok (pre ++ l ∷ post)
    → (rpre : List LedgerRow) × (r : LedgerRow) × (rpost : List LedgerRow) × (rows
        ≡ rpre ++ r ∷ rpost)
      × (entry_of r ≡ ok l)
      × (scan_entries rpost ≡ ok post)
unfolding scan_entries
scan-split [] [] l post h = cc
scan-split [] (x ∷ pre) l post h = cc
scan-split (r ∷ rows) [] l post h =
    let (e, es', one, more, same) = scan-cons r rows (l ∷ post) h in
    ([], r, rows, refl, ground (arith, one), ground (arith, more))
scan-split (r ∷ rows) (x ∷ pre) l post h =
    let (e, es', one, more, same) = scan-cons r rows (x ∷ (pre ++ l ∷ post)) h in
    let more' : scan_entries rows ≡ ok (pre ++ l ∷ post) = ground (arith, more) in
    let (rpre, m, rpost, shape, at, after) = scan-split rows pre l post more' in
    (r ∷ rpre, m, rpost, ap (◌∷◌ r) shape, at, after)

pub entry-here :
    (r : LedgerRow) (e : Entry) → entry_of r ≡ ok e → (e.created_at ≡ r.created_at) × (e.id ≡ r.id)
unfolding from_minor_units Ledger.rehydrate
entry-here r e h = ground arith
