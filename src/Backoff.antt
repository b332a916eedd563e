-- ===== src/Backoff.antt =====
-- The three retry delays: `NextBackoff` of internal/application/resolve_pending_references.go,
-- `NextAttempt` of internal/infra/rabbitmq/outbox_worker.go and `backoffFor` of
-- internal/infra/rabbitmq/consumer.go. The first and the last stop doubling at fixed limits, far below the
-- range of an `int64`; the limit of the second is a setting, so its arithmetic is that of an `int64`.
pub mod Bounds
use wager_service.Base.{
  ℕ, zero, suc, ◌+◌, ◌-◌, ◌*◌, ◌^◌, ◌≤◌, ◌<◌, ◌≡◌, refl, Bool, arith, ltb, leb, if◌then◌else◌,
}
use wager_service.Ids.{Time, Duration, second, minute}
use wager_service.Base.Int.{ℤ, pos, negsuc, ◌*ℤ◌, leb_ℤ}
use wager_service.Money.Int64.{wrap64}
use wager_service.Resolve.{PendingReferenceRetryPolicy}

-- `for i := 0; i < attempts && backoff < 5*time.Minute; i++ { backoff *= 2 }`, by the rounds left
unfoldable pub double_below : ℕ → Duration → Duration
double_below zero backoff = backoff
double_below (suc n) backoff =
    let rest = double_below n (backoff * 2) in if ltb backoff (5 * minute) then rest else backoff

-- `NextBackoff`
unfoldable pub next_backoff : PendingReferenceRetryPolicy → ℕ → Duration
unfolding double_below
next_backoff p attempts =
    let backoff = double_below attempts p.base_backoff in
    if ltb (5 * minute) backoff then 5 * minute else backoff

pub record BackoffPolicy : Type 0 where
  pub base : ℤ
  pub max : ℤ

-- `for i := 1; i < attempts; i++ { d *= 2; if d >= p.Max { d = p.Max; break } }`, by the rounds left: the
-- doubling wraps around
unfoldable pub double_wrapping : ℤ → ℕ → ℤ → ℤ
unfolding wrap64 ◌*ℤ◌
double_wrapping max zero d = d
double_wrapping max (suc n) d =
    let rest = double_wrapping max n (wrap64 (d *ℤ pos 2)) in
    if leb_ℤ max (wrap64 (d *ℤ pos 2)) then max else rest

-- `now.Add(d)`; an instant before the zero `time.Time` is taken as the zero one
abbrev pub add_duration : Time → ℤ → Time
add_duration now (pos d) = now + d
add_duration now (negsuc d) = now - suc d

-- `NextAttempt` of `BackoffPolicy`
unfoldable pub next_attempt : BackoffPolicy → Time → ℕ → Time
unfolding double_wrapping
next_attempt p now attempts = add_duration now (double_wrapping p.max (attempts - 1) p.base)

-- the loop of `backoffFor`: `for i := 1; i < attempt; i++ { d *= 2; if d >= time.Minute { return time.Minute } }`
unfoldable pub double_capped : Duration → ℕ → Duration → Duration
double_capped max zero d = d
double_capped max (suc n) d =
    let rest = double_capped max n (d * 2) in if leb max (d * 2) then max else rest

-- `backoffFor`
unfoldable pub backoff_for : ℕ → Duration
unfolding double_capped
backoff_for attempt = double_capped minute (attempt - 1) (2 * second)
