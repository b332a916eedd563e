-- ===== src/Ids.antt =====
-- `uuid.UUID` and `time.Time` as this program uses them: identifiers that are compared, of which one is
-- nil, and instants that are compared and shifted.
use wager_service.Base.{ℕ, Bool, ◌==◌}

-- The 128 bits of a UUID as a number.
abbrev pub Uuid : Type 0
Uuid = ℕ

abbrev pub nil_uuid : Uuid
nil_uuid = 0

abbrev pub is_nil : Uuid → Bool
is_nil id = id == nil_uuid

-- Nanoseconds since the zero `time.Time`, which is 0.
abbrev pub Time : Type 0
Time = ℕ

abbrev pub zero_time : Time
zero_time = 0

-- `time.Duration`, in nanoseconds.
abbrev pub Duration : Type 0
Duration = ℕ

abbrev pub second : Duration
second = 1_000_000_000

abbrev pub minute : Duration
minute = 60_000_000_000
