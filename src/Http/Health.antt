-- ===== src/Http/Health.antt =====
-- internal/infra/http/router.go and handlers.go: the two health checks. The probe of `ReadinessChecker` is an
-- argument.
use wager_service.Base.{String, Option, none, some}
use wager_service.Errors.{Result, ok, err}
use wager_service.Http.Responses.{Reply, written, refused}

-- `Liveness`
abbrev pub liveness : Reply String
liveness = written 200 "live"

abbrev pub probed : Result (Unit {0}) → Reply String
probed (ok u) = written 200 "ready"
probed (err e) = refused 503 "not_ready"

-- `readinessHandler`: where there is no checker, the service is ready
abbrev pub readiness : Option (Result (Unit {0})) → Reply String
readiness none = written 200 "ready"
readiness (some r) = probed r
