-- ===== src/Money/Int64.antt =====
-- internal/domain/money/money.go: Go's `int64` arithmetic and the three checked operations.
use wager_service.Base.{
  ℕ, suc, ◌+◌, ◌-◌, ◌/◌, ◌%◌, ◌^◌, ◌≡◌, Bool, not, ◌&&◌, ◌||◌, Option, none, some, arith, ltb,
  if◌then◌else◌,
}
use wager_service.Base.Int.{
  ℤ, pos, negsuc, pos_part, neg_part, sub_ℕ, ◌+ℤ◌, neg_ℤ, ◌*ℤ◌, ◌≤ℤ◌, ltb_ℤ, leb_ℤ, eqb_ℤ,
}

abbrev pub max_int64 : ℤ
max_int64 = pos (2 ^ 63 - 1)

abbrev pub min_int64 : ℤ
min_int64 = negsuc (2 ^ 63 - 1)

-- The integers that an `int64` holds.
abbrev pub IsInt64 : ℤ → Type 0
IsInt64 a = (min_int64 ≤ℤ a) × (a ≤ℤ max_int64)

-- The same as a test, for specifications.
abbrev pub in_int64 : ℤ → Bool
in_int64 a = leb_ℤ min_int64 a && leb_ℤ a max_int64

-- The 64-bit pattern of an integer, and the integer that a pattern stands for.
abbrev pattern_of : ℤ → ℕ
pattern_of (pos n) = n % 2 ^ 64
pattern_of (negsuc n) = 2 ^ 64 - 1 - n % 2 ^ 64

abbrev signed : ℕ → ℤ
signed w = if ltb w (2 ^ 63) then pos w else negsuc (2 ^ 64 - 1 - w)

-- What Go's `+`, `-` and `*` on `int64` leave of the true result.
unfoldable pub wrap64 : ℤ → ℤ
wrap64 a = signed (pattern_of a)

-- Go's `/` on integers: it rounds to zero. The quotient of `MinInt64` by -1 wraps around.
unfoldable pub quo64 : ℤ → ℤ → ℤ
unfolding wrap64
quo64 (pos a) (pos b) = pos (a / b)
quo64 (pos a) (negsuc b) = sub_ℕ 0 (a / suc b)
quo64 (negsuc a) (pos b) = sub_ℕ 0 (suc a / b)
quo64 (negsuc a) (negsuc b) = wrap64 (pos (suc a / suc b))

-- Go's `%` on integers: it has the sign of the dividend.
unfoldable pub rem64 : ℤ → ℤ → ℤ
rem64 (pos a) b = pos (a % (pos_part b + neg_part b))
rem64 (negsuc a) b = sub_ℕ 0 (suc a % (pos_part b + neg_part b))

-- `checkedAdd`; `none` is the result `(0, false)`.
unfoldable pub checked_add : ℤ → ℤ → Option ℤ
unfolding wrap64 ◌+ℤ◌
checked_add a b =
    let sum = wrap64 (a +ℤ b) in
    if (ltb_ℤ (pos 0) b && ltb_ℤ sum a) || (ltb_ℤ b (pos 0) && ltb_ℤ a sum) then none else some sum

-- `checkedNegate`
unfoldable pub checked_negate : ℤ → Option ℤ
unfolding wrap64 neg_ℤ
checked_negate a = if eqb_ℤ a min_int64 then none else some (wrap64 (neg_ℤ a))

-- `checkedMul`
unfoldable pub checked_mul : ℤ → ℤ → Option ℤ
unfolding wrap64 quo64 ◌*ℤ◌
checked_mul a b =
    if eqb_ℤ a (pos 0) || eqb_ℤ b (pos 0)
    then some (pos 0)
    else let result = wrap64 (a *ℤ b) in
      if not (eqb_ℤ (quo64 result b) a) then none else some result

-- `checkedAdd` returns the true sum exactly when an `int64` holds it.
pub checked_add_exact :
    (a b : ℤ)
    → IsInt64 a
    → IsInt64 b
    → checked_add a b ≡ (if in_int64 (a +ℤ b) then some (a +ℤ b) else none)
unfolding checked_add
checked_add_exact a b ha hb = ground arith

-- `checkedNegate` returns the true negation exactly when an `int64` holds it.
pub checked_negate_exact :
    (a : ℤ) → IsInt64 a → checked_negate a ≡ (if in_int64 (neg_ℤ a) then some (neg_ℤ a) else none)
unfolding checked_negate
checked_negate_exact a ha = ground arith

-- `checkedMul` by 100, the one factor that the program uses, returns the true product exactly when an
-- `int64` holds it.
pub checked_mul_exact :
    (a : ℤ)
    → IsInt64 a
    → checked_mul a (pos 100) ≡ (if in_int64 (a *ℤ pos 100) then some (a *ℤ pos 100) else none)
unfolding checked_mul
checked_mul_exact (pos n) ha = ground arith
checked_mul_exact (negsuc n) ha = ground arith
