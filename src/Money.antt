-- ===== src/Money.antt =====
-- internal/domain/money/money.go: the type `Money`. `minor_units` is an `int64`, kept as the integer that
-- it stands for; the arithmetic of `Money/Int64` wraps as Go's does.
pub mod Int64
pub mod Decimal
pub mod Arithmetic
pub mod RoundTrip
pub mod Reading
pub mod Acceptance
use Int64.{checked_add, checked_mul, checked_negate, min_int64, wrap64, quo64, rem64}
use Decimal.{Bytes, Amount, match_amount, parse_int, decimal, two_digits}
use wager_service.Base.{
  ℕ, suc, Bool, true, false, not, ◌&&◌, Option, none, some, String, List, [], ◌∷◌, ◌++◌, leb,
  str_eq, codes, if◌then◌else◌,
}
use wager_service.Base.Int.{ℤ, pos, negsuc, neg_ℤ, ltb_ℤ, eqb_ℤ}
use wager_service.Errors.{
  Error, Result, ok, err, ◌>>=◌, ◌>>◌, refuse_if, invalid_currency, empty_amount, invalid_format,
  overflow, negative_amount, money_currency_mismatch,
}

pub record Money : Type 0 where
  pub minor_units : ℤ
  pub currency : String

-- `Money{}`
abbrev pub no_money : Money
no_money = record { minor_units = pos 0; currency = "" }

abbrev is_upper : ℕ → Bool
is_upper c = leb b'A' c && leb c b'Z'

-- `currencyPattern`, `^[A-Z]{3}$`
unfoldable pub matches_currency : Bytes → Bool
matches_currency (a ∷ b ∷ c ∷ []) = is_upper a && (is_upper b && is_upper c)
matches_currency _ = false

unfoldable pub normalize_currency : String → Result String
unfolding matches_currency
normalize_currency currency =
    if not (matches_currency (codes currency)) then err invalid_currency else ok currency

unfoldable pub zero : String → Result Money
unfolding normalize_currency
zero currency = do
  c ← normalize_currency currency
  ok (record { minor_units = pos 0; currency = c })

unfoldable pub from_minor_units : ℤ → String → Result Money
unfolding normalize_currency
from_minor_units minor_units currency = do
  c ← normalize_currency currency
  ok (record { minor_units = minor_units; currency = c })

-- a checked operation: `if !ok { return Money{}, err }`
abbrev pub or_fail {ℓ} : {A : Type ℓ} → Option A → Error → Result A
or_fail none e = err e
or_fail (some a) e = ok a

abbrev pub is_empty : Bytes → Bool
is_empty [] = true
is_empty (c ∷ s) = false

-- from the matched groups to the minor units
unfoldable pub units_of : Amount → Result ℤ
unfolding parse_int checked_mul checked_add checked_negate
units_of m = do
  int_val ← or_fail (parse_int m.int_part) overflow
  frac_val ← or_fail (parse_int m.frac_part) invalid_format
  major ← or_fail (checked_mul (pos int_val) (pos 100)) overflow
  minor_units ← or_fail (checked_add major (pos frac_val)) overflow
  if m.negative then or_fail (checked_negate minor_units) overflow else ok minor_units

unfoldable pub parse : Bytes → String → Result Money
parse amount currency = do
  c ← normalize_currency currency
  refuse_if (is_empty amount) empty_amount
  m ← or_fail (match_amount amount) invalid_format
  minor_units ← units_of m
  ok (record { minor_units = minor_units; currency = c })

unfoldable pub parse_external_amount : Bytes → String → Result Money
parse_external_amount amount currency = do
  m ← parse amount currency
  if ltb_ℤ m.minor_units (pos 0) then err negative_amount else ok m

abbrev pub is_zero : Money → Bool
is_zero m = eqb_ℤ m.minor_units (pos 0)

abbrev pub is_negative : Money → Bool
is_negative m = ltb_ℤ m.minor_units (pos 0)

abbrev pub is_positive : Money → Bool
is_positive m = ltb_ℤ (pos 0) m.minor_units

abbrev pub same_currency : Money → Money → Result (Unit {0})
same_currency m other = refuse_if (not (str_eq m.currency other.currency)) money_currency_mismatch

unfoldable pub add : Money → Money → Result Money
unfolding checked_add
add m other = do
  same_currency m other
  sum ← or_fail (checked_add m.minor_units other.minor_units) overflow
  ok (record { minor_units = sum; currency = m.currency })

unfoldable pub subtract : Money → Money → Result Money
unfolding checked_negate checked_add
subtract m other = do
  same_currency m other
  neg ← or_fail (checked_negate other.minor_units) overflow
  diff ← or_fail (checked_add m.minor_units neg) overflow
  ok (record { minor_units = diff; currency = m.currency })

unfoldable pub negate : Money → Result Money
unfolding checked_negate
negate m = do
  neg ← or_fail (checked_negate m.minor_units) overflow
  ok (record { minor_units = neg; currency = m.currency })

unfoldable pub compare : Money → Money → Result ℤ
compare m other = do
  same_currency m other
  if ltb_ℤ m.minor_units other.minor_units
      then ok (negsuc 0)
      else if ltb_ℤ other.minor_units m.minor_units
      then ok (pos 1)
      else ok (pos 0)

unfoldable pub equals : Money → Money → Bool
equals m other = str_eq m.currency other.currency && eqb_ℤ m.minor_units other.minor_units

-- `%d` and `%02d` at an integer
abbrev decimal_of : ℤ → Bytes
decimal_of (pos n) = decimal n
decimal_of (negsuc n) = b'-' ∷ decimal (suc n)

abbrev two_digits_of : ℤ → Bytes
two_digits_of (pos n) = two_digits n
two_digits_of (negsuc n) = b'-' ∷ decimal (suc n)

-- `fmt.Sprintf("%s%d.%02d", sign, whole, cents)`
abbrev sprint : Bytes → ℤ → ℤ → Bytes
sprint sign whole cents = sign ++ (decimal_of whole ++ b'.' ∷ two_digits_of cents)

-- The body of `String`, over the minor units.
unfoldable pub units_text : ℤ → Bytes
unfolding quo64 rem64 wrap64 neg_ℤ
units_text units =
    if ltb_ℤ units (pos 0)
    then if eqb_ℤ units min_int64
      then sprint (b'-' ∷ []) (wrap64 (neg_ℤ (quo64 units (pos 100))))
          (wrap64 (neg_ℤ (rem64 units (pos 100))))
      else (let abs = wrap64 (neg_ℤ units) in
          sprint (b'-' ∷ []) (quo64 abs (pos 100)) (rem64 abs (pos 100)))
    else sprint [] (quo64 units (pos 100)) (rem64 units (pos 100))

-- The method `String`.
unfoldable pub to_string : Money → Bytes
to_string m = units_text m.minor_units
