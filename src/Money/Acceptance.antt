-- ===== src/Money/Acceptance.antt =====
-- internal/domain/money/money.go: `Parse` on every text of the form of `amountPattern`.
use mathlib.Core.List.{cons-ne-nil}
use wager_service.Base.{
  arith, ℕ, ◌+◌, ◌-◌, ◌*◌, ◌^◌, ◌<◌, ◌≤◌, ◌≡◌, refl, sym, ap, ◌∙◌, Bool, true, false, String, some,
  [], ◌∷◌, ◌++◌, All, leb, if◌then◌else◌,
}
use wager_service.Base.Int.{ℤ, pos, neg_ℤ}
use wager_service.Errors.{◌>>=◌, Result, ok, err, overflow}
use wager_service.Money.{Money, parse, units_of, normalize_currency, or_fail}
use wager_service.Money.Int64.{checked_mul, checked_add, checked_negate}
use wager_service.Money.RoundTrip.{parse_lem, match_amount-digits}
use wager_service.Money.Reading.{value-append}
use wager_service.Money.Decimal.{
  Bytes, Amount, IsDigit, span-digits, match_fraction, match_unsigned, match_amount, value,
  parse_int,
}

abbrev max : ℕ
max = 2 ^ 63 - 1

-- with the sign
abbrev pub with_sign : Bool → ℕ → ℤ
with_sign neg n = if neg then neg_ℤ (pos n) else pos n

-- what the units of `a` and `f` cents are
abbrev pub units_in_range : Bool → ℕ → Result ℤ
units_in_range neg n = if leb n max then ok (with_sign neg n) else err overflow

sum_of :
    (neg : Bool) (a f : ℕ)
    → f < 100
    → a ≤ max
    → (do
      major ← or_fail (checked_mul (pos a) (pos 100)) overflow
      minor_units ← or_fail (checked_add major (pos f)) overflow
      if neg then or_fail (checked_negate minor_units) overflow else ok minor_units)
      ≡ units_in_range neg (a * 100 + f)
unfolding checked_mul checked_add checked_negate neg_ℤ
sum_of neg a f h k = ground arith

units_of_exact :
    (m : Amount)
    → value 0 m.frac_part < 100
    → units_of m ≡ units_in_range m.negative (value 0 m.int_part * 100 + value 0 m.frac_part)
unfolding units_of parse_int
units_of_exact m h = ground (arith, sum_of m.negative (value 0 m.int_part) (value 0 m.frac_part) h)

abbrev pub sign_of : Bool → Bytes
sign_of neg = if neg then b'-' ∷ [] else []

-- a text of the form of `amountPattern`
abbrev pub amount_text : Bool → ℕ → Bytes → ℕ → ℕ → Bytes
amount_text neg c cs d e = sign_of neg ++ ((c ∷ cs) ++ b'.' ∷ d ∷ e ∷ [])

-- its groups
abbrev groups : Bool → ℕ → Bytes → ℕ → ℕ → Amount
groups neg c cs d e = record { negative = neg; int_part = c ∷ cs; frac_part = d ∷ e ∷ [] }

fraction-groups :
    (neg : Bool) (c : ℕ) (cs : Bytes) (d e : ℕ)
    → All IsDigit (d ∷ e ∷ [])
    → match_fraction neg (c ∷ cs) (b'.' ∷ d ∷ e ∷ []) ≡ some (groups neg c cs d e)
unfolding match_fraction
fraction-groups neg c cs d e h = ground arith

unsigned-groups :
    (neg : Bool) (c : ℕ) (cs : Bytes) (d e : ℕ)
    → All IsDigit (c ∷ cs)
    → All IsDigit (d ∷ e ∷ [])
    → match_unsigned neg ((c ∷ cs) ++ b'.' ∷ d ∷ e ∷ []) ≡ some (groups neg c cs d e)
unfolding match_unsigned
unsigned-groups neg c cs d e h k =
    rw (span-digits (c ∷ cs) (d ∷ e ∷ []) b'.' h refl) (fraction-groups neg c cs d e k)

text-groups :
    (neg : Bool) (c : ℕ) (cs : Bytes) (d e : ℕ)
    → All IsDigit (c ∷ cs)
    → All IsDigit (d ∷ e ∷ [])
    → match_amount (amount_text neg c cs d e) ≡ some (groups neg c cs d e)
text-groups true c cs d e h k = unfold match_amount in unsigned-groups true c cs d e h k
text-groups false c cs d e h k =
    match_amount-digits (c ∷ cs) (b'.' ∷ d ∷ e ∷ []) h (cons-ne-nil c cs)
    ∙ unsigned-groups false c cs d e h k

abbrev amount_in : String → ℤ → Result Money
amount_in currency units = ok (record { minor_units = units; currency = currency })

two_digits-below : (d e : ℕ) → All IsDigit (d ∷ e ∷ []) → value 0 (d ∷ e ∷ []) < 100
two_digits-below d e (h, (k, _)) = omega (arith, h, k)

units-answer :
    (neg : Bool) (n m : ℕ) (currency : String)
    → n ≡ m
    → (units_in_range neg n >>= λ units. amount_in currency units) ≡ (
        if leb m (2 ^ 63 - 1)
        then ok (record { minor_units = with_sign neg m; currency = currency })
        else err overflow)
units-answer neg n m currency e = ground arith

-- `Parse` on a text that is perhaps a minus sign, then one digit or more, a point and two digits, and a
-- currency that `Money` accepts: it returns the number that the digits spell without the point, with the
-- sign, if that number is at most the largest `int64`, and the overflow error otherwise. No such text is
-- refused for another reason, and none gives another amount.
pub parse_exact :
    (neg : Bool) (c : ℕ) (cs : Bytes) (d e : ℕ) (currency : String)
    → normalize_currency currency ≡ ok currency
    → All IsDigit (c ∷ cs)
    → All IsDigit (d ∷ e ∷ [])
    → parse (amount_text neg c cs d e) currency ≡ (
        if leb (value 0 ((c ∷ cs) ++ d ∷ e ∷ [])) (2 ^ 63 - 1)
        then ok (record {
          minor_units = with_sign neg (value 0 ((c ∷ cs) ++ d ∷ e ∷ []));
          currency = currency;
        })
        else err overflow)
parse_exact neg c cs d e currency real h k =
    parse_lem (amount_text neg c cs d e) currency (groups neg c cs d e) real
      (text-groups neg c cs d e h k)
    ∙ ap (λ r. r >>= λ units. amount_in currency units)
        (units_of_exact (groups neg c cs d e) (two_digits-below d e k))
    ∙ units-answer neg _ _ currency (sym (value-append (c ∷ cs) 0 d e))
