-- ===== src/Money/RoundTrip.antt =====
-- internal/domain/money/money.go: `Parse` on what `String` prints.
use wager_service.Base.{
  ℕ, suc, ◌/◌, ◌%◌, ◌<◌, ◌≡◌, ◌≢◌, refl, ◌∙◌, true, false, Bool, some, none, arith, [], ◌∷◌, ◌++◌,
  String, All, ◌^◌, if◌then◌else◌,
}
use wager_service.Base.Int.{ℤ, pos, negsuc, sub_ℕ}
use wager_service.Errors.{ok, err, overflow, ◌>>=◌}
use wager_service.Money.{Money, parse, to_string, normalize_currency, units_of, units_text}
use wager_service.Money.Int64.{IsInt64, min_int64, checked_add, checked_mul}
use wager_service.Money.Decimal.{
  Bytes, Amount, IsDigit, decimal-IsDigit, decimal-ne-nil, parse_int-decimal, parse_int-two_digits,
  span-digits, decimal, two_digits, match_amount, match_unsigned, match_fraction,
}

-- The text of a magnitude.
abbrev magnitude : ℕ → Bytes
magnitude n = decimal (n / 100) ++ b'.' ∷ two_digits (n % 100)

abbrev signed_text : ℤ → Bytes
signed_text (pos n) = magnitude n
signed_text (negsuc n) = b'-' ∷ magnitude (suc n)

units_text_lem : (z : ℤ) → IsInt64 z → units_text z ≡ signed_text z
unfolding units_text
units_text_lem (pos n) h = ground arith
units_text_lem (negsuc n) h = ground arith

abbrev fields : Bool → ℕ → Amount
fields neg n = record {
  negative = neg;
  int_part = decimal (n / 100);
  frac_part = two_digits (n % 100);
}

match_fraction-digits :
    (neg : Bool) (ds : Bytes) (n : ℕ)
    → ds ≢ []
    → n < 100
    → match_fraction neg ds (b'.' ∷ two_digits n)
      ≡ some (record { negative = neg; int_part = ds; frac_part = two_digits n })
unfolding match_fraction two_digits
match_fraction-digits neg [] n h k = absurd (h refl)
match_fraction-digits neg (c ∷ cs) n h k = ground arith

match-magnitude : (neg : Bool) (n : ℕ) → match_unsigned neg (magnitude n) ≡ some (fields neg n)
unfolding match_unsigned
match-magnitude neg n =
    rw
      (span-digits (decimal (n / 100)) (two_digits (n % 100)) b'.' (decimal-IsDigit (n / 100)) refl)
      (match_fraction-digits neg (decimal (n / 100)) (n % 100) (decimal-ne-nil (n / 100))
        (omega arith))

units_of-fields :
    (neg : Bool) (n : ℕ)
    → n < 2 ^ 63
    → units_of (fields neg n) ≡ ok (if neg then sub_ℕ 0 n else pos n)
unfolding units_of
units_of-fields neg n h =
    rw (parse_int-decimal (n / 100) (omega arith), parse_int-two_digits (n % 100) (omega arith))
      (ground arith)

pub match_amount-digits :
    (ds rest : Bytes)
    → All IsDigit ds
    → ds ≢ []
    → match_amount (ds ++ rest) ≡ match_unsigned false (ds ++ rest)
unfolding match_amount
match_amount-digits [] rest h ne = absurd (ne refl)
match_amount-digits (d ∷ ds) rest h ne = ground arith

-- The groups that are matched in a printed amount.
abbrev groups : ℤ → Amount
groups (pos n) = fields false n
groups (negsuc n) = fields true (suc n)

match_amount-signed_text : (z : ℤ) → match_amount (signed_text z) ≡ some (groups z)
match_amount-signed_text (pos n) =
    match_amount-digits (decimal (n / 100)) (b'.' ∷ two_digits (n % 100))
      (decimal-IsDigit (n / 100)) (decimal-ne-nil (n / 100))
    ∙ match-magnitude false n
match_amount-signed_text (negsuc n) = unfold match_amount in match-magnitude true (suc n)

units_of-groups : (z : ℤ) → IsInt64 z → z ≢ min_int64 → units_of (groups z) ≡ ok z
units_of-groups (pos n) h ne = units_of-fields false n (omega arith)
units_of-groups (negsuc n) h ne = units_of-fields true (suc n) (ground arith) ∙ ground arith

match_amount-nil : match_amount [] ≡ none
unfolding match_amount
match_amount-nil = refl

pub parse_lem :
    (text : Bytes) (currency : String) (a : Amount)
    → normalize_currency currency ≡ ok currency
    → match_amount text ≡ some a
    → parse text currency
      ≡ (units_of a >>= λ units. ok (record { minor_units = units; currency = currency }))
unfolding parse
parse_lem [] currency a c e = cc match_amount-nil
parse_lem (b ∷ text) currency a c e = rw (c, e)

units_of-min : units_of (groups min_int64) ≡ err overflow
unfolding units_of
units_of-min =
    rw
      (
        parse_int-decimal (2 ^ 63 / 100) (omega arith),
        parse_int-two_digits (2 ^ 63 % 100) (omega arith),
      )
      (unfold checked_mul checked_add in refl)

-- `Parse` reads back exactly what `String` prints, for every amount in a valid currency but the least
-- `int64`.
pub parse-to_string :
    (m : Money)
    → IsInt64 m.minor_units
    → m.minor_units ≢ min_int64
    → normalize_currency m.currency ≡ ok m.currency
    → parse (to_string m) m.currency ≡ ok m
unfolding to_string
parse-to_string m h ne c = rw (
  units_text_lem m.minor_units h,
  parse_lem _ m.currency (groups m.minor_units) c (match_amount-signed_text m.minor_units),
  units_of-groups m.minor_units h ne,
)

-- The least `int64` prints as a text that `Parse` refuses.
parse-to_string_min :
    (currency : String)
    → normalize_currency currency ≡ ok currency
    → parse (to_string (record { minor_units = min_int64; currency = currency })) currency
      ≡ err overflow
unfolding to_string
parse-to_string_min currency c = rw (
  units_text_lem min_int64 (omega arith),
  parse_lem _ currency (groups min_int64) c (match_amount-signed_text min_int64),
  units_of-min,
)
