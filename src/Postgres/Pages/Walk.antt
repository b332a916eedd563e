-- ===== src/Postgres/Pages/Walk.antt =====
-- internal/infra/postgres/ledger_repository.go: the pages that a client gets by following the cursors.
use wager_service.Base.{
  arith, ℕ, zero, suc, ◌+◌, ◌^◌, ◌<◌, ◌≡◌, ◌≢◌, refl, ap, sym, subst, ◌∙◌, Option, none, some, List,
  [], ◌∷◌, ◌++◌, keep, sort_by, take, length,
}
use native.Mathlib.Decide.{dec_lt}
use mathlib.Core.List.{append_assoc}
use wager_service.Base.Int.{ℤ, pos, negsuc, ◌+ℤ◌}
use wager_service.Base.Sorting.{
  Strict, AllApart, Strict-sort, keep-sort, keep-keep, keep-after, AllApart-keep,
}
use wager_service.Ids.{Uuid}
use wager_service.Errors.{Result, ok, err, ◌>>=◌, infrastructure}
use wager_service.Money.Int64.{wrap64}
use wager_service.Money.Decimal.{Bytes}
use wager_service.Ledger.{Entry}
use wager_service.Postgres.Database.{World, LedgerRow}
use wager_service.Postgres.Ledgers.{of_wallet}
use wager_service.Postgres.Pages.{
  Codec, LedgerCursor, comes_before, is_selected, select, entry_of, scan_entries, page_size, page,
  position, page_of, list_by_wallet, encode_ledger_cursor,
}
use wager_service.Postgres.Pages.Cursor.{Faithful, position-encode, encode_ledger_cursor-full}
use wager_service.Postgres.Pages.Rows.{
  here, earlier, earlier-Order, UniqueIds, UniqueIds-AllApart, scan-take, scan-split, entry-here,
}
use wager_service.Postgres.Pages.Cut.{middle, page-short, page-long, length-split}

-- A client that asks for page after page until there is no next cursor.
abbrev pub follow : List Entry → Bytes → (Bytes → Result (List Entry)) → Result (List Entry)
follow entries [] rest = ok entries
follow entries (b ∷ s) rest = do more ← rest (b ∷ s); ok (entries ++ more)

abbrev pub and_follow :
    Result (List Entry × Bytes) → (Bytes → Result (List Entry)) → Result (List Entry)
and_follow (err e) rest = err e
and_follow (ok (entries, next)) rest = follow entries next rest

pub walk : Codec → Uuid → ℤ → World → ℕ → Bytes → Result (List Entry)
walk c id limit w zero cursor = err infrastructure
walk c id limit w (suc n) cursor =
    and_follow (list_by_wallet c id cursor limit w).0 (walk c id limit w n)

wrap-small : (n : ℕ) → n + 1 < 2 ^ 63 → wrap64 (pos n +ℤ pos 1) ≡ pos (suc n)
unfolding wrap64 ◌+ℤ◌
wrap-small n h = ground arith

follow_full :
    (es : List Entry) (s : Bytes) (rest : Bytes → Result (List Entry)) (more : List Entry)
    → s ≢ []
    → rest s ≡ ok more
    → follow es s rest ≡ ok (es ++ more)
follow_full es [] rest more h e = absurd (h refl)
follow_full es (b ∷ s) rest more h e = rw e refl

module _ (c : Codec) (faithful : Faithful c) (id : Uuid) (w : World)
    (unique : UniqueIds w.db.ledger) where
  -- the wallet's rows in order
  abbrev rows : List LedgerRow
  rows = sort_by comes_before (keep (of_wallet id) w.db.ledger)

  apart : AllApart comes_before earlier earlier-Order (keep (of_wallet id) w.db.ledger)
  apart =
      AllApart-keep comes_before earlier earlier-Order (of_wallet id) w.db.ledger
        (UniqueIds-AllApart w.db.ledger unique)

  abbrev Selects : Option LedgerCursor → List LedgerRow → Type 0
  Selects cur rest = sort_by comes_before (keep (is_selected id cur) w.db.ledger) ≡ rest

  -- After a row of the list a cursor selects the rest of the list.
  Selects-here :
      (done rest : List LedgerRow) (r : LedgerRow)
      → rows ≡ done ++ r ∷ rest
      → Selects (some (here r)) rest
  Selects-here done rest r shape =
      ap (sort_by comes_before) (sym (keep-keep (of_wallet id) (earlier r) w.db.ledger))
      ∙ sym (
          keep-sort comes_before earlier earlier-Order (earlier r) (keep (of_wallet id) w.db.ledger)
            apart)
      ∙ ap (keep (earlier r)) shape
      ∙ keep-after comes_before earlier earlier-Order done r rest (
          subst (Strict comes_before earlier earlier-Order) shape (
            Strict-sort comes_before earlier earlier-Order (keep (of_wallet id) w.db.ledger) apart))

  module _ (k : ℕ) (small : suc k + 1 < 2 ^ 63) where
    page_of-selected :
        (cursor : Bytes) (cur : Option LedgerCursor) (rest : List LedgerRow) (es : List Entry)
        → position c cursor ≡ ok cur
        → Selects cur rest
        → scan_entries rest ≡ ok es
        → page_of c id cursor (suc k) w.db.ledger ≡ ok (page c (suc k) (take (suc (suc k)) es))
    unfolding page_of select
    page_of-selected cursor cur rest es at selects scanned =
        rw (at, wrap-small (suc k) small, selects, scan-take (suc (suc k)) rest es scanned) refl

    module _ (limit : ℤ) (size : page_size limit ≡ suc k) where
      page_at :
          (cursor : Bytes) (cur : Option LedgerCursor) (rest : List LedgerRow) (es : List Entry)
          → position c cursor ≡ ok cur
          → Selects cur rest
          → scan_entries rest ≡ ok es
          → (list_by_wallet c id cursor limit w).0 ≡ ok (page c (suc k) (take (suc (suc k)) es))
      unfolding list_by_wallet
      page_at cursor cur rest es at selects scanned =
          ap (λ n. page_of c id cursor n w.db.ledger) size
          ∙ page_of-selected cursor cur rest es at selects scanned

      -- A page that is not the last, and the pages after it, which are asked for with its cursor.
      split_page :
          (done rpre rpost : List LedgerRow) (r : LedgerRow) (pre post : List Entry) (l p : Entry)
          (more : Bytes → Result (List Entry))
          → length pre ≡ k
          → rows ≡ (done ++ rpre) ++ r ∷ rpost
          → entry_of r ≡ ok l
          → scan_entries rpost ≡ ok (p ∷ post)
          → ((cur : LedgerCursor)
              → Selects (some cur) rpost
              → more (encode_ledger_cursor c cur) ≡ ok (p ∷ post))
          → let (entries, next) = page c (suc k) (take (suc (suc k)) (pre ++ l ∷ p ∷ post)) in
            follow entries next more ≡ ok (pre ++ l ∷ p ∷ post)
      split_page done rpre rpost r pre post l p more size_pre shape at after later =
          let cur : LedgerCursor = record { created_at = l.created_at; id = l.id } in
          let same : here r ≡ cur = ground (arith, entry-here r l at) in
          let selects : Selects (some cur) rpost =
            subst (λ z. Selects (some z) rpost) same (Selects-here (done ++ rpre) rpost r shape) in
          let whole : page c (suc k) (take (suc (suc k)) (pre ++ l ∷ p ∷ post))
              ≡ (pre ++ l ∷ [], encode_ledger_cursor c cur) =
            subst
              (λ j.
                page c (suc j) (take (suc (suc j)) (pre ++ l ∷ p ∷ post))
                ≡ (pre ++ l ∷ [], encode_ledger_cursor c cur))
              size_pre (page-long c pre l p post) in
          ap (λ z. follow z.0 z.1 more) whole
          ∙ follow_full (pre ++ l ∷ []) (encode_ledger_cursor c cur) more (p ∷ post)
              (encode_ledger_cursor-full c faithful cur) (later cur selects)
          ∙ ap ok (append_assoc pre (l ∷ []) (p ∷ post))

      longer_page :
          (done rest : List LedgerRow) (es : List Entry) (more : Bytes → Result (List Entry))
          → rows ≡ done ++ rest
          → scan_entries rest ≡ ok es
          → suc k < length es
          → ((cur : LedgerCursor) (done' rest' : List LedgerRow) (es' : List Entry)
              → Selects (some cur) rest'
              → rows ≡ done' ++ rest'
              → scan_entries rest' ≡ ok es'
              → length es' < length es
              → more (encode_ledger_cursor c cur) ≡ ok es')
          → let (entries, next) = page c (suc k) (take (suc (suc k)) es) in
            follow entries next more ≡ ok es
      longer_page done rest es more shape scanned longer later =
          let (pre, l, p, post, split, size_pre) = middle k es longer in
          let (rpre, r, rpost, rsplit, at, after) =
            scan-split rest pre l (p ∷ post) (scanned ∙ ap ok split) in
          let placed : rows ≡ (done ++ rpre) ++ r ∷ rpost =
            shape ∙ ap (◌++◌ done) rsplit ∙ sym (append_assoc done rpre (r ∷ rpost)) in
          let further : rows ≡ ((done ++ rpre) ++ r ∷ []) ++ rpost =
            placed ∙ sym (append_assoc (done ++ rpre) (r ∷ []) rpost) in
          let less : length (p ∷ post) < length es =
            omega (arith, ap length split, length-split pre l (p ∷ post)) in
          subst
            (λ z.
              let (entries, next) = page c (suc k) (take (suc (suc k)) z) in
              follow entries next more ≡ ok z)
            (sym split)
            (split_page done rpre rpost r pre post l p more size_pre placed at after λ cur selects.
              later cur ((done ++ rpre) ++ r ∷ []) rpost (p ∷ post) selects further after less)

      -- what is left is read to its end
      walk-rest :
          (n : ℕ) (cursor : Bytes) (cur : Option LedgerCursor) (done rest : List LedgerRow)
          (es : List Entry)
          → position c cursor ≡ ok cur
          → Selects cur rest
          → rows ≡ done ++ rest
          → scan_entries rest ≡ ok es
          → length es < n
          → walk c id limit w n cursor ≡ ok es
      unfolding walk
      walk-rest zero cursor cur done rest es at selects shape scanned enough = absurd (omega arith)
      walk-rest (suc n) cursor cur done rest es at selects shape scanned enough =
          ap (λ r. and_follow r (walk c id limit w n))
            (page_at cursor cur rest es at selects scanned)
          ∙ elim (dec_lt (suc k) (length es)) [
            | yes longer ↦
                longer_page done rest es (walk c id limit w n) shape scanned longer
                  λ cur' done' rest' es' selects' shape' scanned' less.
                    walk-rest n (encode_ledger_cursor c cur') (some cur') done' rest' es'
                      (position-encode c faithful cur') selects' shape' scanned' (omega arith)
            | no shorter ↦
                ap (λ p. follow p.0 p.1 (walk c id limit w n))
                  (page-short c (suc k) es (omega arith))
          ]

page_size-pos : (limit : ℤ) → (k : ℕ) × (page_size limit ≡ suc k)
page_size-pos (pos zero) = (49, refl)
page_size-pos (pos (suc n)) = (n, refl)
page_size-pos (negsuc n) = (49, refl)

-- A client that asks for a wallet's ledger in pages of any size (zero and less stand for 50), each with the
-- cursor of the one before it, gets every entry of the wallet exactly once, in the order of creation, and
-- comes to an end: with more requests than there are entries, the pages one after another are the
-- whole ledger of the wallet as one query would read it. Nothing is booked in between,
-- the identifiers of the entries are distinct, as
-- the primary key has it, the rows can be read, and the page size is below the largest `int64`.
pub walk_complete :
    (c : Codec) (id : Uuid) (limit : ℤ) (w : World) (n : ℕ) (entries : List Entry)
    → Faithful c
    → UniqueIds w.db.ledger
    → page_size limit + 1 < 2 ^ 63
    → scan_entries (sort_by comes_before (keep (of_wallet id) w.db.ledger)) ≡ ok entries
    → length entries < n
    → walk c id limit w n [] ≡ ok entries
walk_complete c id limit w n entries faithful unique small scanned enough =
    let (k, size) = page_size-pos limit in
    walk-rest c faithful id w unique k (omega (arith, size)) limit size n [] none []
      (sort_by comes_before (keep (of_wallet id) w.db.ledger)) entries refl refl refl scanned enough
