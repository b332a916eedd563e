-- ===== src/Money/Reading.antt =====
-- internal/domain/money/money.go: what `Parse` reads from a text.
use wager_service.Base.{
  Bool-cases, ◌==◌, ==_iff, String, arith, ℕ, ◌+◌, ◌-◌, ◌*◌, ◌≡◌, refl, sym, ap, subst, ◌∙◌, Bool,
  true, false, Option, none, some, [], ◌∷◌, ◌++◌, All, ◌⊎◌, inl, inr, if◌then◌else◌,
}
use wager_service.Base.Int.{ℤ, pos, neg_ℤ, ◌≤ℤ◌, ◌+ℤ◌, ◌*ℤ◌}
use wager_service.Errors.{◌>>=◌, Error, Result, ok, err, overflow, invalid_format}
use wager_service.Money.{Money, parse, parse_external_amount, units_of, normalize_currency, or_fail}
use wager_service.Money.Int64.{
  IsInt64, checked_mul, checked_add, checked_negate, checked_mul_exact, checked_add_exact,
  checked_negate_exact,
}
use wager_service.Money.Decimal.{
  Bytes, Amount, IsDigit, span_digits, match_fraction, match_unsigned, match_amount, value,
  parse_int,
}
use wager_service.Money.Arithmetic.{Fits}

-- The text is the decimal notation of the amount `n`, in minor units: perhaps a minus sign, digits, a point
-- and two digits, and `n` is the number that the digits spell without the point.
pub record Spells (text : Bytes) (n : ℕ) : Type 0 where
  pub sign : Bytes
  pub ints : Bytes
  pub tens : ℕ
  pub ones : ℕ
  pub signed : (sign ≡ []) ⊎ (sign ≡ b'-' ∷ [])
  pub shape : text ≡ sign ++ (ints ++ b'.' ∷ tens ∷ ones ∷ [])
  pub digits : All IsDigit ints × All IsDigit (tens ∷ ones ∷ [])
  pub number : n ≡ value 0 (ints ++ tens ∷ ones ∷ [])

-- The longest run of digits and the rest make up the text.
span-join : (s : Bytes) → (span_digits s).0 ++ (span_digits s).1 ≡ s
unfolding span_digits
span-join [] = refl
span-join (c ∷ s) = ground (arith, span-join s)

span-IsDigit : (s : Bytes) → All IsDigit (span_digits s).0
unfolding span_digits
span-IsDigit [] = tt
span-IsDigit (c ∷ s) = ground (arith, span-IsDigit s)

-- what the pattern has matched behind the sign
record Matched (neg : Bool) (ds rest : Bytes) (m : Amount) : Type 0 where
  negative : m.negative ≡ neg
  ints : m.int_part ≡ ds
  tens : ℕ
  ones : ℕ
  frac : m.frac_part ≡ tens ∷ ones ∷ []
  behind : rest ≡ b'.' ∷ tens ∷ ones ∷ []
  digits : All IsDigit (tens ∷ ones ∷ [])

fraction-Matched :
    (neg : Bool) (ds rest : Bytes) (m : Amount)
    → match_fraction neg ds rest ≡ some m
    → Matched neg ds rest m
unfolding match_fraction
fraction-Matched neg [] rest m e = absurd cc
fraction-Matched neg (c ∷ cs) [] m e = absurd cc
fraction-Matched neg (c ∷ cs) (dot ∷ []) m e = absurd cc
fraction-Matched neg (c ∷ cs) (dot ∷ d ∷ []) m e = absurd cc
fraction-Matched neg (c ∷ cs) (dot ∷ d ∷ o ∷ x ∷ xs) m e = absurd cc
fraction-Matched neg (c ∷ cs) (dot ∷ d ∷ o ∷ []) m e = record {
  negative = ground arith;
  ints = ground arith;
  tens = d;
  ones = o;
  frac = ground arith;
  behind = ground arith;
  digits = ground arith;
}

unsigned-Matched :
    (neg : Bool) (s : Bytes) (m : Amount)
    → match_unsigned neg s ≡ some m
    → Matched neg (span_digits s).0 (span_digits s).1 m
unfolding match_unsigned
unsigned-Matched neg s m e = fraction-Matched neg (span_digits s).0 (span_digits s).1 m e

pub value-append :
    (ds : Bytes) (n d o : ℕ) → value n (ds ++ d ∷ o ∷ []) ≡ value n ds * 100 + value 0 (d ∷ o ∷ [])
value-append [] n d o = omega arith
value-append (c ∷ ds) n d o = value-append ds (n * 10 + (c - b'0')) d o

-- the amount of the matched groups
abbrev pub number_of : Amount → ℕ
number_of m = value 0 m.int_part * 100 + value 0 m.frac_part

behind_sign :
    (neg : Bool) (sign s : Bytes) (m : Amount)
    → (sign ≡ []) ⊎ (sign ≡ b'-' ∷ [])
    → match_unsigned neg s ≡ some m
    → Spells (sign ++ s) (number_of m)
behind_sign neg sign s m signed e =
    let k = unsigned-Matched neg s m e in
    record {
      sign = sign;
      ints = (span_digits s).0;
      tens = k.tens;
      ones = k.ones;
      signed = signed;
      shape = ap (λ t. sign ++ t) (sym (span-join s) ∙ ap (λ t. (span_digits s).0 ++ t) k.behind);
      digits = (span-IsDigit s, k.digits);
      number =
          ap (λ ds. value 0 ds * 100 + value 0 m.frac_part) k.ints
          ∙ ap (λ ds. value 0 (span_digits s).0 * 100 + value 0 ds) k.frac
          ∙ sym (value-append (span_digits s).0 0 k.tens k.ones);
    }

match-Spells : (s : Bytes) (m : Amount) → match_amount s ≡ some m → Spells s (number_of m)
unfolding match_amount
match-Spells [] m e = absurd cc
match-Spells (c ∷ s) m e = elim (Bool-cases (c == b'-')) [
  | inl h ↦
      subst (λ c. Spells (c ∷ s) (number_of m)) (sym ((==_iff c b'-').0 h))
        (behind_sign true (b'-' ∷ []) s m (inr refl) (ground (arith, e, h)))
  | inr h ↦ behind_sign false [] (c ∷ s) m (inl refl) (ground (arith, e, h))
]

parse_int-value : (ds : Bytes) (n : ℕ) → parse_int ds ≡ some n → (n ≡ value 0 ds) × IsInt64 (pos n)
unfolding parse_int
parse_int-value ds n e = (ground arith, ground arith)

checked_mul-value :
    (a z : ℤ) → IsInt64 a → checked_mul a (pos 100) ≡ some z → (z ≡ a *ℤ pos 100) × IsInt64 z
checked_mul-value a z h e =
    (ground (arith, checked_mul_exact a h), ground (arith, checked_mul_exact a h))

checked_add-value :
    (a b z : ℤ) → IsInt64 a → IsInt64 b → checked_add a b ≡ some z → (z ≡ a +ℤ b) × IsInt64 z
checked_add-value a b z h k e =
    (ground (arith, checked_add_exact a b h k), ground (arith, checked_add_exact a b h k))

-- What a block that succeeded has met.
bind-inv :
    {A B : Type 0} (r : Result A) (f : A → Result B) (b : B)
    → r >>= f ≡ ok b
    → (a : A) × (r ≡ ok a) × (f a ≡ ok b)
bind-inv (ok a) f b e = (a, refl, e)
bind-inv (err x) f b e = ground arith

or_fail-inv : {A : Type 0} (o : Option A) (x : Error) (a : A) → or_fail o x ≡ ok a → o ≡ some a
or_fail-inv none x a e = ground arith
or_fail-inv (some b) x a e = ground arith

-- with the sign
abbrev signed_number : Bool → ℕ → ℤ
signed_number neg n = if neg then neg_ℤ (pos n) else pos n

signed-value :
    (neg : Bool) (n : ℕ) (minor z : ℤ)
    → minor ≡ pos n
    → IsInt64 minor
    → (if neg then or_fail (checked_negate minor) overflow else ok minor) ≡ ok z
    → (z ≡ signed_number neg n) × IsInt64 z
signed-value neg n minor z same h e =
    (ground (arith, checked_negate_exact minor h), ground (arith, checked_negate_exact minor h))

number_sum : (a b : ℕ) → pos a *ℤ pos 100 +ℤ pos b ≡ pos (a * 100 + b)
unfolding ◌*ℤ◌ ◌+ℤ◌
number_sum a b = ground arith

minor-number :
    (i f a b : ℕ) (major minor : ℤ)
    → minor ≡ major +ℤ pos f
    → major ≡ pos i *ℤ pos 100
    → i ≡ a
    → f ≡ b
    → minor ≡ pos (a * 100 + b)
minor-number i f a b major minor e h k l = rw (e, h, k, l) (number_sum a b)

units_of-value :
    (m : Amount) (z : ℤ)
    → units_of m ≡ ok z
    → (z ≡ signed_number m.negative (number_of m)) × IsInt64 z
unfolding units_of
units_of-value m z e =
    let (int_val, has_int, e₁) = bind-inv _ _ z e in
    let (frac_val, has_frac, e₂) = bind-inv _ _ z e₁ in
    let (major, has_major, e₃) = bind-inv _ _ z e₂ in
    let (minor, has_minor, e₄) = bind-inv _ _ z e₃ in
    let (int_is, int_fits) = parse_int-value m.int_part int_val (or_fail-inv _ _ _ has_int) in
    let (frac_is, frac_fits) = parse_int-value m.frac_part frac_val (or_fail-inv _ _ _ has_frac) in
    let (major_is, major_fits) =
      checked_mul-value (pos int_val) major int_fits (or_fail-inv _ _ _ has_major) in
    let (minor_is, minor_fits) =
      checked_add-value major (pos frac_val) minor major_fits frac_fits
        (or_fail-inv _ _ _ has_minor) in
    signed-value m.negative (number_of m) minor z
      (minor-number int_val frac_val (value 0 m.int_part) (value 0 m.frac_part) major minor minor_is
        major_is int_is frac_is)
      minor_fits e₄

-- `Parse` behind its first two checks
abbrev parsed_groups : Option Amount → String → Result Money
parsed_groups o currency = do
  m ← or_fail o invalid_format
  minor_units ← units_of m
  ok (record { minor_units = minor_units; currency = currency })

parse-groups :
    (text : Bytes) (currency : String) (m : Money)
    → parse text currency ≡ ok m
    → parsed_groups (match_amount text) currency ≡ ok m
unfolding parse normalize_currency
parse-groups text currency m e = ground arith

groups-value :
    (text : Bytes) (o : Option Amount) (currency : String) (m : Money)
    → match_amount text ≡ o
    → parsed_groups o currency ≡ ok m
    → (neg : Bool) × (n : ℕ) × Spells text n
      × (m.minor_units ≡ signed_number neg n)
      × Fits m
      × (m.currency ≡ currency)
groups-value text none currency m matched e = absurd cc
groups-value text (some g) currency m matched e =
    let (units, has_units, e₁) = bind-inv (units_of g) _ m e in
    let (is, fits) = units_of-value g units has_units in
    (
      g.negative,
      number_of g,
      match-Spells text g matched,
      ground (arith, e₁, is),
      ground (arith, e₁, fits),
      ground (arith, e₁),
    )

not_negative : (neg : Bool) (n : ℕ) (z : ℤ) → z ≡ signed_number neg n → pos 0 ≤ℤ z → z ≡ pos n
unfolding neg_ℤ
not_negative neg n z e h = ground arith

-- An amount that comes from outside: the units of the text's decimal notation, without a loss.
pub external-reads :
    (text : Bytes) (currency : String) (m : Money)
    → parse_external_amount text currency ≡ ok m
    → (n : ℕ) × Spells text n × (m.minor_units ≡ pos n) × Fits m × (m.currency ≡ currency)
unfolding parse_external_amount
external-reads text currency m e =
    let (m', parsed, e₁) = bind-inv (parse text currency) _ m e in
    let (neg, n, spells, is, fits, same) =
      groups-value text (match_amount text) currency m' refl
        (parse-groups text currency m' parsed) in
    (
      n,
      spells,
      not_negative neg n m.minor_units (ground (arith, is, e₁)) (ground (arith, e₁)),
      ground (arith, e₁, fits),
      ground (arith, e₁, same),
    )
