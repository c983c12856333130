-- ===== src/Clock.antt =====
-- Go's `time.Time` as an instant and `time.Duration`, as far as the limiter and the handlers use them.
pub mod Civil
pub mod CivilTests
pub mod Layout
use uptime_service_backend.Base.{ℕ, ◌+◌, ◌*◌, ◌≡◌, Bool}
use uptime_service_backend.Base.Int.{ℤ, pos, ◌+ℤ◌, ltb_ℤ, pos_part, neg_part, +ℤ_parts}

-- Nanoseconds since 1 January of the year 1, 00:00 UTC: Go's zero time is `pos 0`.
abbrev pub Instant : Type 0
Instant = ℤ

-- Nanoseconds; an int64 in the source.
abbrev pub Duration : Type 0
Duration = ℤ

abbrev pub nanos_per_second : ℕ
nanos_per_second = 1000000000

abbrev pub minute : ℕ
minute = 60 * nanos_per_second

abbrev pub hour : ℕ
hour = 60 * minute

-- `t.After(u)`
abbrev pub after : Instant → Instant → Bool
after t u = ltb_ℤ u t

-- `t.Add(d)`
unfoldable pub add : Instant → Duration → Instant
add t d = t +ℤ d

pub add_parts :
    (t d : ℤ)
    → pos_part (add t d) + neg_part t + neg_part d ≡ neg_part (add t d) + pos_part t + pos_part d
unfolding add
add_parts t d = +ℤ_parts t d
