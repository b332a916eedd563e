-- ===== src/Base/Lists.antt =====
-- Lists over the native numbers, and a few walks that the program's queries use.
use Prim.Native.Nat.{ℕ, zero, suc}
use Prim.Native.Char.{code}
use Prim.Native.String.{String}
use mathlib.Core.Bool.{Bool, true, false, ◌||◌}
use mathlib.Core.Path.{◌≡◌, refl}
use native.Mathlib.Omega.{arith}
use mathlib.Core.Option.{Option, none, some}
use mathlib.Core.List.{List, [], ◌∷◌, ◌++◌}
use wager_service.Base.Tests.{if◌then◌else◌}

-- The bytes of an ASCII text.
abbrev pub codes : String → List ℕ
codes String.[] = []
codes (String.◌∷◌ c s) = code c ∷ codes s

module _ {ℓ} {A : Type ℓ} where
  abbrev pub length : List A → ℕ
  length [] = 0
  length (x ∷ xs) = suc (length xs)

  abbrev pub take : ℕ → List A → List A
  take zero xs = []
  take (suc n) [] = []
  take (suc n) (x ∷ xs) = x ∷ take n xs

  -- The first item that passes a test.
  unfoldable pub find : (A → Bool) → List A → Option A
  find p [] = none
  find p (x ∷ xs) = if p x then some x else find p xs

  -- SQL's WHERE
  unfoldable pub keep : (A → Bool) → List A → List A
  keep p [] = []
  keep p (x ∷ xs) = let rest = keep p xs in if p x then x ∷ rest else rest

  -- SQL's UPDATE … WHERE: every row that passes the test
  unfoldable pub update : (A → Bool) → (A → A) → List A → List A
  update p f [] = []
  update p f (x ∷ xs) = (if p x then f x else x) ∷ update p f xs

  unfoldable pub any : (A → Bool) → List A → Bool
  any p [] = false
  any p (x ∷ xs) = p x || any p xs

  unfoldable pub insert_by : (A → A → Bool) → A → List A → List A
  insert_by le x [] = x ∷ []
  insert_by le x (y ∷ ys) = if le x y then x ∷ y ∷ ys else y ∷ insert_by le x ys

  -- SQL's ORDER BY
  unfoldable pub sort_by : (A → A → Bool) → List A → List A
  unfolding insert_by
  sort_by le [] = []
  sort_by le (x ∷ xs) = insert_by le x (sort_by le xs)

abbrev pub All {ℓ κ} : {A : Type ℓ} → (A → Type κ) → List A → Type κ
All P [] = Unit
All P (x ∷ xs) = P x × All P xs

module _ {ℓ κ} {A : Type ℓ} (P : A → Type κ) where
  pub All-append : (xs : List A) (x : A) → All P xs → P x → All P (xs ++ x ∷ [])
  All-append [] x h p = (p, tt)
  All-append (y ∷ ys) x h p = (h.0, All-append ys x h.1 p)

  update_at : (b : Bool) (f : A → A) (x : A) → (P x → P (f x)) → P x → P (if b then f x else x)
  update_at true f x k h = k h
  update_at false f x k h = h

  pub All-update :
      (p : A → Bool) (f : A → A) (xs : List A)
      → ((x : A) → P x → P (f x))
      → All P xs
      → All P (update p f xs)
  unfolding update
  All-update p f [] k h = tt
  All-update p f (x ∷ xs) k h = (update_at (p x) f x (k x) h.0, All-update p f xs k h.1)

module _ {ℓ} {A : Type ℓ} (p : A → Bool) where
  pub keep-append :
      (xs : List A) (x : A) → keep p (xs ++ x ∷ []) ≡ keep p xs ++ (if p x then x ∷ [] else [])
  unfolding keep
  keep-append [] x = ground arith
  keep-append (y ∷ ys) x = ground (arith, keep-append ys x)

  pub find-append :
      (xs : List A) (x : A)
      → find p (xs ++ x ∷ [])
        ≡ elim (find p xs) [ some y ↦ some y | none ↦ if p x then some x else none ]
  unfolding find
  find-append [] x = refl
  find-append (y ∷ ys) x = ground (arith, find-append ys x)

  -- An update that leaves the tested column alone changes the row that is found.
  pub find-update :
      (q : A → Bool) (f : A → A)
      → ((x : A) → p (f x) ≡ p x)
      → (xs : List A)
      → find p (update q f xs)
        ≡ elim (find p xs) [ some y ↦ some (if q y then f y else y) | none ↦ none ]
  unfolding find update
  find-update q f k [] = refl
  find-update q f k (x ∷ xs) = ground (arith, k x, find-update q f k xs)

  pub any-find : (xs : List A) → any p xs ≡ elim (find p xs) [ some y ↦ true | none ↦ false ]
  unfolding find any
  any-find [] = refl
  any-find (x ∷ xs) = ground (arith, any-find xs)

  pub find-test : (xs : List A) (y : A) → find p xs ≡ some y → p y ≡ true
  unfolding find
  find-test [] y e = cc
  find-test (x ∷ xs) y e = ground (arith, find-test xs y)
