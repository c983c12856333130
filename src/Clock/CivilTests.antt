-- ===== src/Clock/CivilTests.antt =====
-- Dates that can be checked against a calendar.
use uptime_service_backend.Base.{◌≡◌, refl, some}
use uptime_service_backend.Base.Int.{pos, negsuc}
use uptime_service_backend.Base.Text.{lit}
use uptime_service_backend.Clock.Civil.{format, format_utc}

zero_time : format_utc (pos 0) ≡ lit "0001-01-01T00:00:00Z"
unfolding format_utc
zero_time = refl

before_zero : format_utc (negsuc 0) ≡ lit "0000-12-31T23:59:59Z"
unfolding format_utc
before_zero = refl

-- The Unix epoch is 62135596800 s after the zero time; 1709210096 s later it is a leap day.
leap_day : format_utc (pos 63844806896_000000123) ≡ lit "2024-02-29T12:34:56Z"
unfolding format_utc
leap_day = refl

in_zone :
    format (record { instant = pos 63844806896_000000123; zone = some (negsuc 19799) })
    ≡ lit "2024-02-29T07:04:56-05:30"
unfolding format
in_zone = refl
