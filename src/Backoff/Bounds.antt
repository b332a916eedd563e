-- ===== src/Backoff/Bounds.antt =====
-- The closed forms of the retry delays (internal/infra/rabbitmq/outbox_worker.go and consumer.go,
-- internal/application/resolve_pending_references.go).
use native.Mathlib.Nat.{pow-suc, pow-zero}
use wager_service.Base.{
  ℕ, zero, suc, ◌+◌, ◌-◌, ◌*◌, ◌^◌, ◌≤◌, ◌<◌, ◌≡◌, refl, arith, leb, if◌then◌else◌,
}
use wager_service.Ids.{Time, second, minute}
use wager_service.Base.Int.{pos}
use wager_service.Resolve.{PendingReferenceRetryPolicy}
use wager_service.Backoff.{
  double_below, double_capped, double_wrapping, next_backoff, next_attempt, backoff_for,
}

abbrev pub min : ℕ → ℕ → ℕ
min a b = if leb a b then a else b

double_pow : (d n : ℕ) → d * 2 ^ suc n ≡ d * 2 * 2 ^ n
double_pow d n = rw (pow-suc 2 n) (grind arith)

at_least : (d n : ℕ) → d ≤ d * 2 ^ n
at_least d zero = grind (arith, pow-zero 2)
at_least d (suc n) = rw (double_pow d n) (omega (arith, at_least (d * 2) n))

double_capped_exact : (max n d : ℕ) → d ≤ max → double_capped max n d ≡ min max (d * 2 ^ n)
unfolding double_capped
double_capped_exact max zero d h = rw (pow-zero 2) (ground arith)
double_capped_exact max (suc n) d h =
    rw (double_pow d n) (ground (arith, at_least (d * 2) n, double_capped_exact max n (d * 2)))

-- Below 2^62 no doubling wraps around.
double_wrapping-pos :
    (max n d : ℕ)
    → d ≤ max
    → max < 2 ^ 62
    → double_wrapping (pos max) n (pos d) ≡ pos (double_capped max n d)
unfolding double_wrapping double_capped
double_wrapping-pos max zero d h bound = refl
double_wrapping-pos max (suc n) d h bound = ground (arith, double_wrapping-pos max n (d * 2))

-- `NextAttempt` doubles the base delay with each attempt after the first, up to the largest delay, where
-- both are not negative, the base delay is not above the largest one, and that is below 2^62 nanoseconds,
-- which is about 146 years: then no doubling leaves the range of an `int64`.
pub next_attempt_exact :
    (base max : ℕ) (now : Time) (attempts : ℕ)
    → base ≤ max
    → max < 2 ^ 62
    → next_attempt (record { base = pos base; max = pos max }) now attempts
      ≡ now + min max (base * 2 ^ (attempts - 1))
unfolding next_attempt
next_attempt_exact base max now attempts h bound =
    rw
      (
        double_wrapping-pos max (attempts - 1) base h bound,
        double_capped_exact max (attempts - 1) base h,
      )
      refl

-- `backoffFor` is two seconds doubled with each attempt after the first, and at most a minute.
pub backoff_for_exact :
    (attempt : ℕ) → backoff_for attempt ≡ min minute (2 * second * 2 ^ (attempt - 1))
unfolding backoff_for
backoff_for_exact attempt = double_capped_exact minute (attempt - 1) (2 * second) (omega arith)

double_below_exact : (n d : ℕ) → min (5 * minute) (double_below n d) ≡ min (5 * minute) (d * 2 ^ n)
unfolding double_below
double_below_exact zero d = rw (pow-zero 2) (ground arith)
double_below_exact (suc n) d =
    rw (double_pow d n)
      (ground (arith, at_least d n, double_below_exact n (d * 2), at_least (d * 2) n))

-- `NextBackoff` is the base delay doubled with each attempt, and at most five minutes.
pub next_backoff_exact :
    (p : PendingReferenceRetryPolicy) (attempts : ℕ)
    → next_backoff p attempts ≡ min (5 * minute) (p.base_backoff * 2 ^ attempts)
unfolding next_backoff
next_backoff_exact p attempts = ground (arith, double_below_exact attempts p.base_backoff)
