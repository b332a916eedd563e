-- ===== src/Base/Sorting.antt =====
-- SQL's ORDER BY with WHERE: the rows that are kept of a sorted table are the sorted rows that are kept.
use mathlib.Core.Path.{◌≡◌, refl, ap, sym, ◌∙◌}
use mathlib.Core.Logic.{◌⊎◌, inl, inr}
use mathlib.Core.Bool.{Bool, true, false, not, ◌&&◌}
use mathlib.Core.List.{List, [], ◌∷◌, ◌++◌}
use native.Mathlib.Omega.{arith}
use wager_service.Base.Tests.{if◌then◌else◌, Bool-cases}
use wager_service.Base.Lists.{All, keep, insert_by, sort_by}

-- An order of rows, of which any two are one before the other.
pub record Order {A : Type 0} (le lt : A → A → Bool) : Type 0 where
  pub trans : (x y z : A) → lt x y ≡ true → lt y z ≡ true → lt x z ≡ true
  pub asym : (x y : A) → lt x y ≡ true → lt y x ≡ false
  pub le_is : (x y : A) → le x y ≡ not (lt y x)

module _ {A : Type 0} (le : A → A → Bool) (P : A → Type 0) where
  All-insert : (x : A) (ys : List A) → P x → All P ys → All P (insert_by le x ys)
  unfolding insert_by
  All-insert x [] p h = (p, tt)
  All-insert x (y ∷ ys) p (q, h) = elim (Bool-cases (le x y)) [
    | inl e ↦ rw e (p, (q, h))
    | inr e ↦ rw e (q, All-insert x ys p h)
  ]

  pub All-sort : (xs : List A) → All P xs → All P (sort_by le xs)
  unfolding sort_by
  All-sort [] h = tt
  All-sort (x ∷ xs) (p, h) = All-insert x (sort_by le xs) p (All-sort xs h)

module _ {A : Type 0} (p : A → Bool) (P : A → Type 0) where
  pub All-keep : (xs : List A) → All P xs → All P (keep p xs)
  unfolding keep
  All-keep [] h = tt
  All-keep (x ∷ xs) (q, h) = elim (Bool-cases (p x)) [
    | inl e ↦ rw e (q, All-keep xs h)
    | inr e ↦ rw e (All-keep xs h)
  ]

module _ {A : Type 0} (le lt : A → A → Bool) (order : Order le lt) where
  -- Each row comes before every row behind it.
  abbrev pub Strict : List A → Type 0
  Strict [] = Unit
  Strict (x ∷ xs) = All (λ y. lt x y ≡ true) xs × Strict xs

  All-map : (P Q : A → Type 0) (xs : List A) → ((x : A) → P x → Q x) → All P xs → All Q xs
  All-map P Q [] f h = tt
  All-map P Q (x ∷ xs) f (p, h) = (f x p, All-map P Q xs f h)

  -- what is before the head is before the rest
  before-All :
      (x y : A) (ys : List A)
      → lt x y ≡ true
      → All (λ z. lt y z ≡ true) ys
      → All (λ z. lt x z ≡ true) (y ∷ ys)
  before-All x y ys h a = (h, All-map _ _ ys (λ z k. order.trans x y z h k) a)

  abbrev pub Apart : A → A → Type 0
  Apart x y = (lt x y ≡ true) ⊎ (lt y x ≡ true)

  -- Any two rows of the list are apart.
  abbrev pub AllApart : List A → Type 0
  AllApart [] = Unit
  AllApart (x ∷ xs) = All (Apart x) xs × AllApart xs

  first_before : (x y : A) → Apart x y → le x y ≡ true → lt x y ≡ true
  first_before x y (inl h) e = h
  first_before x y (inr h) e = ground (arith, order.le_is x y)

  Strict-insert : (x : A) (ys : List A) → Strict ys → All (Apart x) ys → Strict (insert_by le x ys)
  unfolding insert_by
  Strict-insert x [] s apart = (tt, tt)
  Strict-insert x (y ∷ ys) (a, s) (p, apart) = elim (Bool-cases (le x y)) [
    | inl e ↦ rw e (before-All x y ys (first_before x y p e) a, (a, s))
    | inr e ↦
        let less : lt y x ≡ true = ground (arith, order.le_is x y) in
        rw e (All-insert le (λ z. lt y z ≡ true) x ys less a, Strict-insert x ys s apart)
  ]

  pub Strict-sort : (xs : List A) → AllApart xs → Strict (sort_by le xs)
  unfolding sort_by
  Strict-sort [] h = tt
  Strict-sort (x ∷ xs) (p, h) =
      Strict-insert x (sort_by le xs) (Strict-sort xs h) (All-sort le (Apart x) xs p)

  insert-front : (x : A) (ys : List A) → All (λ y. lt x y ≡ true) ys → insert_by le x ys ≡ x ∷ ys
  unfolding insert_by
  insert-front x [] h = refl
  insert-front x (y ∷ ys) (p, h) = ground (arith, order.le_is x y, order.asym x y)

  module _ (p : A → Bool) where
    pub AllApart-keep : (xs : List A) → AllApart xs → AllApart (keep p xs)
    unfolding keep
    AllApart-keep [] h = tt
    AllApart-keep (x ∷ xs) (q, h) = elim (Bool-cases (p x)) [
      | inl e ↦ rw e (All-keep p (Apart x) xs q, AllApart-keep xs h)
      | inr e ↦ rw e (AllApart-keep xs h)
    ]

    keep-insert :
        (x : A) (ys : List A)
        → Strict ys
        → All (Apart x) ys
        → keep p (insert_by le x ys) ≡ (if p x then insert_by le x (keep p ys) else keep p ys)
    unfolding keep insert_by
    keep-insert x [] s apart = ground arith
    keep-insert x (y ∷ ys) (a, s) (q, apart) = elim (Bool-cases (le x y)) [
      | inl e ↦
          let front = insert-front x (keep p (y ∷ ys)) (
            All-keep p (λ z. lt x z ≡ true) (y ∷ ys)
              (before-All x y ys (first_before x y q e) a)) in
          rw e (ap (λ l. if p x then l else keep p (y ∷ ys)) (sym front))
      | inr e ↦ rw e (ground (arith, keep-insert x ys s apart))
    ]

    -- WHERE and ORDER BY commute.
    pub keep-sort : (xs : List A) → AllApart xs → keep p (sort_by le xs) ≡ sort_by le (keep p xs)
    unfolding keep sort_by
    keep-sort [] h = refl
    keep-sort (x ∷ xs) (q, h) =
        keep-insert x (sort_by le xs) (Strict-sort xs h) (All-sort le (Apart x) xs q)
        ∙ elim (Bool-cases (p x)) [
          | inl e ↦ rw e (ap (insert_by le x) (keep-sort xs h))
          | inr e ↦ rw e (keep-sort xs h)
        ]

  pub keep-true : (p : A → Bool) (xs : List A) → All (λ x. p x ≡ true) xs → keep p xs ≡ xs
  unfolding keep
  keep-true p [] h = refl
  keep-true p (x ∷ xs) (q, h) = rw (q, keep-true p xs h) refl

  head-before : (x l : A) (xs ys : List A) → All (λ y. lt x y ≡ true) (xs ++ l ∷ ys) → lt x l ≡ true
  head-before x l [] ys (h, r) = h
  head-before x l (z ∷ xs) ys (h, r) = head-before x l xs ys r

  irreflexive : (x : A) → lt x x ≡ false
  irreflexive x = elim (Bool-cases (lt x x)) [ inl e ↦ order.asym x x e | inr e ↦ e ]

  -- What comes after a row of a sorted list is the rest of the list.
  pub keep-after :
      (xs : List A) (l : A) (ys : List A) → Strict (xs ++ l ∷ ys) → keep (lt l) (xs ++ l ∷ ys) ≡ ys
  unfolding keep
  keep-after [] l ys (a, s) = rw (irreflexive l, keep-true (lt l) ys a) refl
  keep-after (x ∷ xs) l ys (a, s) =
      rw (order.asym x l (head-before x l xs ys a), keep-after xs l ys s) refl

pub keep-keep :
    {A : Type 0} (p q : A → Bool) (xs : List A) → keep q (keep p xs) ≡ keep (λ x. p x && q x) xs
unfolding keep
keep-keep p q [] = refl
keep-keep p q (x ∷ xs) = elim (Bool-cases (p x)) [
  | inl e ↦ rw e (ground (arith, keep-keep p q xs))
  | inr e ↦ rw e (keep-keep p q xs)
]
