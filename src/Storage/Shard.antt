-- ===== src/Storage/Shard.antt =====
-- src/delegation_backend/aws_keyspaces.go: the shard of a submission.
use uptime_service_backend.Base.{ℕ, ◌+◌, ◌*◌, ◌/◌, ◌%◌, ◌<◌, ◌≡◌, arith}
use uptime_service_backend.Base.Int.{ℤ, pos, negsuc}
use uptime_service_backend.Clock.{Instant, nanos_per_second}
use uptime_service_backend.Clock.Civil.{civil, div_floor, mod_floor, seconds_per_day}

pub calculate_shard : Instant → ℕ
calculate_shard t = let c = civil t in (3600 * c.hour + 60 * c.minute + c.second) / 144

-- The second of the day.
abbrev pub second_of_day : Instant → ℕ
second_of_day t = mod_floor (div_floor t nanos_per_second) seconds_per_day

mod_floor-lt : (n : ℤ) → mod_floor n 86400 < 86400
unfolding mod_floor
mod_floor-lt (pos n) = omega arith
mod_floor-lt (negsuc n) = omega arith

-- A day has 600 shards, numbered from 0, and each holds the submissions of 144 seconds.
pub calculate_shard_bounds :
    (t : Instant) → (calculate_shard t < 600) × (calculate_shard t ≡ second_of_day t / 144)
unfolding calculate_shard civil
calculate_shard_bounds t =
    let s = second_of_day t in
    let whole : 3600 * (s / 3600) + 60 * (s / 60 % 60) + s % 60 ≡ s =
      omega (arith, mod_floor-lt (div_floor t nanos_per_second)) in
    (omega (arith, whole, mod_floor-lt (div_floor t nanos_per_second)), rw whole)
