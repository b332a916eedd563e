-- ===== src/Money/Arithmetic.antt =====
-- internal/domain/money/money.go: `Add`, `Subtract`, `Negate` and `Compare` against integer arithmetic.
use wager_service.Base.{◌≡◌, ◌≢◌, true, arith, str_eq, if◌then◌else◌}
use wager_service.Base.Int.{ℤ, ◌+ℤ◌, neg_ℤ, eqb_ℤ, neg_ℤ_parts, eq_of_parts, int_laws}
use wager_service.Errors.{Result, ok, err, overflow, money_currency_mismatch}
use wager_service.Money.{Money, add, subtract}
use wager_service.Money.Int64.{
  IsInt64, in_int64, min_int64, checked_add_exact, checked_negate_exact,
}

-- An amount that the program can hold.
abbrev pub Fits : Money → Type 0
Fits m = IsInt64 m.minor_units

-- The sum of two amounts of one currency, as the program should compute it.
abbrev pub exact_sum : Money → ℤ → Result Money
exact_sum m z = if in_int64 z then ok (record m { minor_units = z }) else err overflow

module _ (m other : Money) (hm : Fits m) (ho : Fits other) where
  -- `Add` refuses two currencies, and otherwise gives the true sum or `ErrOverflow`, never a wrapped sum.
  pub add_exact : add m other ≡ (
      if str_eq m.currency other.currency
      then exact_sum m (m.minor_units +ℤ other.minor_units)
      else err money_currency_mismatch)
  unfolding add
  add_exact = ground (arith, checked_add_exact m.minor_units other.minor_units hm ho)

  -- `Subtract` refuses two currencies, and otherwise gives the true difference or `ErrOverflow`. It
  -- also answers `ErrOverflow` where the subtrahend is the least `int64`.
  pub subtract_exact : subtract m other ≡ (
      if str_eq m.currency other.currency
      then if eqb_ℤ other.minor_units min_int64
        then err overflow
        else exact_sum m (m.minor_units +ℤ neg_ℤ other.minor_units)
      else err money_currency_mismatch)
  unfolding subtract
  subtract_exact = ground (
    arith,
    neg_ℤ_parts other.minor_units,
    checked_negate_exact other.minor_units ho,
    checked_add_exact m.minor_units (neg_ℤ other.minor_units) hm,
  )

add_inv :
    (m other sum : Money)
    → Fits m
    → Fits other
    → add m other ≡ ok sum
    → (str_eq m.currency other.currency ≡ true)
      × (sum ≡ record m { minor_units = m.minor_units +ℤ other.minor_units })
      × IsInt64 (m.minor_units +ℤ other.minor_units)
add_inv m other sum hm ho e = ground (arith, add_exact m other hm ho)

-- What `Add` gave, `Subtract` takes away again, to the very same amount; the amounts are `int64` values
-- and the one added is not the least.
pub subtract-add :
    (m other : Money) {sum : Money}
    → Fits m
    → Fits other
    → other.minor_units ≢ min_int64
    → add m other ≡ ok sum
    → subtract sum other ≡ ok m
subtract-add m other {sum} hm ho h e =
    let (same, is_sum, fits) = add_inv m other sum hm ho e in
    let back : m.minor_units +ℤ other.minor_units +ℤ neg_ℤ other.minor_units ≡ m.minor_units =
      omega int_laws in
    rw is_sum (
      rw
        (subtract_exact (record m { minor_units = m.minor_units +ℤ other.minor_units }) other fits
          ho)
        (rw (same, back) (ground (arith, eq_of_parts other.minor_units min_int64))))
