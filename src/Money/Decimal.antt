-- ===== src/Money/Decimal.antt =====
-- internal/domain/money/money.go: the text of an amount. `amountPattern` as a matcher over bytes, Go's
-- `strconv.ParseInt` on digits, and the `%d` and `%02d` of `fmt.Sprintf`.
use mathlib.Core.List.{foldl, cons-ne-nil}
use wager_service.Base.{
  ℕ, zero, suc, ◌+◌, ◌-◌, ◌*◌, ◌/◌, ◌%◌, ◌^◌, ◌≤◌, ◌<◌, ◌≡◌, ◌≢◌, Bool, true, false, ◌&&◌, Option,
  none, some, List, [], ◌∷◌, ◌++◌, arith, leb, ◌==◌, if◌then◌else◌, All,
}

abbrev pub Bytes : Type 0
Bytes = List ℕ

abbrev pub is_digit : ℕ → Bool
is_digit c = leb b'0' c && leb c b'9'

abbrev pub IsDigit : ℕ → Type 0
IsDigit c = (b'0' ≤ c) × (c ≤ b'9')

-- the longest run of digits at the head of a text, and the rest
unfoldable pub span_digits : Bytes → Bytes × Bytes
span_digits [] = ([], [])
span_digits (c ∷ s) =
    let (ds, rest) = span_digits s in if is_digit c then (c ∷ ds, rest) else ([], c ∷ s)

pub record Amount : Type 0 where
  pub negative : Bool
  pub int_part : Bytes
  pub frac_part : Bytes

-- what must stand behind the integer part: `\.([0-9]{2})$`
unfoldable pub match_fraction : Bool → Bytes → Bytes → Option Amount
match_fraction neg [] rest = none
match_fraction neg (c ∷ cs) (dot ∷ d ∷ e ∷ []) =
    if dot == b'.' && (is_digit d && is_digit e)
    then some (record { negative = neg; int_part = c ∷ cs; frac_part = d ∷ e ∷ [] })
    else none
match_fraction neg (c ∷ cs) rest = none

unfoldable pub match_unsigned : Bool → Bytes → Option Amount
unfolding match_fraction
match_unsigned neg s = let (ds, rest) = span_digits s in match_fraction neg ds rest

-- `^(-?)([0-9]+)\.([0-9]{2})$`
unfoldable pub match_amount : Bytes → Option Amount
unfolding match_unsigned
match_amount [] = none
match_amount (c ∷ s) = if c == b'-' then match_unsigned true s else match_unsigned false (c ∷ s)

-- the number that digits spell behind `n`
abbrev pub value : ℕ → Bytes → ℕ
value = foldl (λ n c. n * 10 + (c - b'0'))

-- `strconv.ParseInt(digits, 10, 64)` on a run of digits: out of range is an error
unfoldable pub parse_int : Bytes → Option ℕ
parse_int ds = if leb (value 0 ds) (2 ^ 63 - 1) then some (value 0 ds) else none

-- the digits of `n` in front of `out`; the fuel is one more than the number of rounds
unfoldable pub emit : ℕ → ℕ → Bytes → Bytes
emit zero n out = out
emit (suc f) n out =
    let rest = emit f (n / 10) ((b'0' + n % 10) ∷ out) in
    if n / 10 == 0 then (b'0' + n % 10) ∷ out else rest

-- `%d`
unfoldable pub decimal : ℕ → Bytes
unfolding emit
decimal n = emit (suc n) n []

-- `%02d` at a number below 100
unfoldable pub two_digits : ℕ → Bytes
two_digits n = (b'0' + n / 10) ∷ (b'0' + n % 10) ∷ []

-- The printed digits are digits, and there is at least one.
emit-IsDigit : (f n : ℕ) (out : Bytes) → All IsDigit out → All IsDigit (emit f n out)
unfolding emit
emit-IsDigit zero n out h = h
emit-IsDigit (suc f) n out h = ground (arith, emit-IsDigit f (n / 10) ((b'0' + n % 10) ∷ out))

-- Reading the printed digits continues as reading the number does.
value-emit : (f n : ℕ) (out : Bytes) → n < f → value 0 (emit f n out) ≡ value n out
unfolding emit
value-emit zero n out h = elim h [ ]
value-emit (suc f) n out h = ground (arith, value-emit f (n / 10) ((b'0' + n % 10) ∷ out))

pub span-digits :
    (ds rest : Bytes) (c : ℕ)
    → All IsDigit ds
    → is_digit c ≡ false
    → span_digits (ds ++ c ∷ rest) ≡ (ds, c ∷ rest)
unfolding span_digits
span-digits [] rest c h e = ground arith
span-digits (d ∷ ds) rest c h e = ground (arith, span-digits ds rest c)

emit-ne-nil : (f n : ℕ) (out : Bytes) → out ≢ [] → emit f n out ≢ []
unfolding emit
emit-ne-nil zero n out h = h
emit-ne-nil (suc f) n out h =
    let ih : emit f (n / 10) ((b'0' + n % 10) ∷ out) ≢ [] =
      emit-ne-nil f (n / 10) ((b'0' + n % 10) ∷ out) (cons-ne-nil _ _) in
    ground arith

pub decimal-IsDigit : (n : ℕ) → All IsDigit (decimal n)
unfolding decimal
decimal-IsDigit n = emit-IsDigit (suc n) n [] tt

pub decimal-ne-nil : (n : ℕ) → decimal n ≢ []
unfolding decimal
decimal-ne-nil n =
    let rest : emit n (n / 10) ((b'0' + n % 10) ∷ []) ≢ [] =
      emit-ne-nil n (n / 10) ((b'0' + n % 10) ∷ []) (cons-ne-nil _ _) in
    ground arith

value-decimal : (n : ℕ) → value 0 (decimal n) ≡ n
unfolding decimal
value-decimal n = value-emit (suc n) n [] (omega arith)

value-two_digits : (n : ℕ) → n < 100 → value 0 (two_digits n) ≡ n
unfolding two_digits
value-two_digits n h = omega arith

pub parse_int-decimal : (n : ℕ) → n < 2 ^ 63 → parse_int (decimal n) ≡ some n
unfolding parse_int
parse_int-decimal n h = rw (value-decimal n) (ground arith)

pub parse_int-two_digits : (n : ℕ) → n < 100 → parse_int (two_digits n) ≡ some n
unfolding parse_int
parse_int-two_digits n h = rw (value-two_digits n h) (ground arith)
