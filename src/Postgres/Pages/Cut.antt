-- ===== src/Postgres/Pages/Cut.antt =====
-- internal/infra/postgres/ledger_repository.go: what `ListByWallet` cuts off where there is another page.
use wager_service.Base.{
  arith, ℕ, zero, suc, ◌+◌, ◌<◌, ◌≤◌, ◌≡◌, refl, ap, some, List, [], ◌∷◌, ◌++◌, take, length,
}
use wager_service.Ledger.{Entry}
use wager_service.Postgres.Pages.{Codec, entry_at, page, encode_ledger_cursor}

-- a list that is longer than a page
pub middle :
    (k : ℕ) (es : List Entry)
    → suc k < length es
    → (pre : List Entry) × (l : Entry) × (p : Entry) × (post : List Entry) × (es
        ≡ pre ++ l ∷ p ∷ post)
      × (length pre ≡ k)
middle k [] h = absurd (omega arith)
middle k (e ∷ []) h = absurd (omega arith)
middle zero (e ∷ p ∷ es) h = ([], e, p, es, refl, refl)
middle (suc k) (e ∷ p ∷ es) h =
    let (pre, l, q, post, shape, size) = middle k (p ∷ es) (omega arith) in
    (e ∷ pre, l, q, post, ap (◌∷◌ e) shape, omega (arith, size))

take-middle :
    (pre : List Entry) (l p : Entry) (post : List Entry)
    → take (suc (suc (length pre))) (pre ++ l ∷ p ∷ post) ≡ pre ++ l ∷ p ∷ []
take-middle [] l p post = refl
take-middle (e ∷ pre) l p post = ap (◌∷◌ e) (take-middle pre l p post)

take-first :
    (pre : List Entry) (l p : Entry) → take (suc (length pre)) (pre ++ l ∷ p ∷ []) ≡ pre ++ l ∷ []
take-first [] l p = refl
take-first (e ∷ pre) l p = ap (◌∷◌ e) (take-first pre l p)

length-middle :
    (pre : List Entry) (l p : Entry) → length (pre ++ l ∷ p ∷ []) ≡ suc (suc (length pre))
length-middle [] l p = refl
length-middle (e ∷ pre) l p = ap suc (length-middle pre l p)

entry_at-middle :
    (pre : List Entry) (l p : Entry) → entry_at (length pre) (pre ++ l ∷ p ∷ []) ≡ some l
entry_at-middle [] l p = refl
entry_at-middle (e ∷ pre) l p = entry_at-middle pre l p

take-all : (n : ℕ) (es : List Entry) → length es ≤ n → take n es ≡ es
take-all zero [] h = refl
take-all zero (e ∷ es) h = absurd (omega arith)
take-all (suc n) [] h = refl
take-all (suc n) (e ∷ es) h = ap (◌∷◌ e) (take-all n es (omega arith))

pub page-short :
    (c : Codec) (k : ℕ) (es : List Entry) → length es ≤ k → page c k (take (suc k) es) ≡ (es, [])
unfolding page
page-short c k es h = rw (take-all (suc k) es (omega arith)) (ground arith)

pub page-long :
    (c : Codec) (pre : List Entry) (l p : Entry) (post : List Entry)
    → page c (suc (length pre)) (take (suc (suc (length pre))) (pre ++ l ∷ p ∷ post))
      ≡ (pre ++ l ∷ [], encode_ledger_cursor c (record { created_at = l.created_at; id = l.id }))
unfolding page
page-long c pre l p post =
    rw (take-middle pre l p post, take-first pre l p)
      (ground (arith, length-middle pre l p, entry_at-middle pre l p))

pub length-split :
    (pre : List Entry) (l : Entry) (post : List Entry)
    → length (pre ++ l ∷ post) ≡ length pre + suc (length post)
length-split [] l post = omega arith
length-split (e ∷ pre) l post = omega (arith, length-split pre l post)
