-- ===== src/Clock/Civil.antt =====
-- Go's package `time`: the UTC date and time of day of an instant, in the proleptic Gregorian
-- calendar, and the RFC 3339 layout.
use uptime_service_backend.Base.{
  ℕ, zero, suc, ◌+◌, ◌-◌, ◌*◌, ◌/◌, ◌%◌, Bool, ◌&&◌, ◌||◌, not, Option, none, some, List, [], ◌∷◌,
  ◌++◌, ltb, ◌==◌, if◌then◌else◌,
}
use uptime_service_backend.Base.Int.{ℤ, pos, negsuc, ◌+ℤ◌, ◌*ℤ◌, pos_part, neg_part}
use uptime_service_backend.Base.Text.{Bytes}
use uptime_service_backend.Base.Decimal.{decimal, two_digits}
use uptime_service_backend.Clock.{Instant, nanos_per_second, add}

-- Division towards minus infinity.
unfoldable pub div_floor : ℤ → ℕ → ℤ
div_floor (pos n) k = pos (n / k)
div_floor (negsuc n) k = negsuc (n / k)

unfoldable pub mod_floor : ℤ → ℕ → ℕ
mod_floor (pos n) k = n % k
mod_floor (negsuc n) k = k - 1 - n % k

-- Days in 400 years, 100 years without a 400th, 4 years with a leap year, a year.
abbrev pub days_per_400_years : ℕ
days_per_400_years = 146097

abbrev pub seconds_per_day : ℕ
seconds_per_day = 86400

pub record Civil : Type 0 where
  pub year : ℤ
  pub month : ℕ
  pub day : ℕ
  pub hour : ℕ
  pub minute : ℕ
  pub second : ℕ

-- The year of a 400-year cycle that begins with a year 1, and the day of that year, both from 0.
unfoldable pub year_and_day : ℕ → ℕ × ℕ
year_and_day d =
    let n100 = d / 36524 - d / 36524 / 4 in
    let d1 = d - 36524 * n100 in
    let n4 = d1 / 1461 in
    let d2 = d1 - 1461 * n4 in
    let n1 = d2 / 365 - d2 / 365 / 4 in (100 * n100 + 4 * n4 + n1, d2 - 365 * n1)

-- `isLeap`
unfoldable pub is_leap : ℕ → Bool
is_leap y = y % 4 == 0 && (not (y % 100 == 0) || y % 400 == 0)

unfoldable pub month_lengths : Bool → List ℕ
month_lengths leap =
    31 ∷ (if leap then 29 else 28) ∷ 31 ∷ 30 ∷ 31 ∷ 30 ∷ 31 ∷ 31 ∷ 30 ∷ 31 ∷ 30 ∷ 31 ∷ []

-- The month, counted on from `m`, and the day of the month, of a day counted from 0.
unfoldable pub month_and_day : List ℕ → ℕ → ℕ → ℕ × ℕ
month_and_day [] m d = (m, d + 1)
month_and_day (n ∷ lengths) m d =
    let later = month_and_day lengths (m + 1) (d - n) in if ltb d n then (m, d + 1) else later

unfoldable pub civil : Instant → Civil
unfolding div_floor mod_floor year_and_day is_leap month_lengths month_and_day ◌+ℤ◌ ◌*ℤ◌
civil t =
    let seconds = div_floor t nanos_per_second in
    let days = div_floor seconds seconds_per_day in
    let s = mod_floor seconds seconds_per_day in
    let (y, yday) = year_and_day (mod_floor days days_per_400_years) in
    let (month, day) = month_and_day (month_lengths (is_leap (y + 1))) 1 yday in
    record {
      year = div_floor days days_per_400_years *ℤ pos 400 +ℤ pos (y + 1);
      month = month;
      day = day;
      hour = s / 3600;
      minute = s / 60 % 60;
      second = s % 60;
    }

-- A year with at least four digits.
unfoldable pub four_digits : ℕ → Bytes
unfolding two_digits decimal
four_digits y = if ltb y 10000 then two_digits (y / 100) ++ two_digits (y % 100) else decimal y

unfoldable pub year_text : ℤ → Bytes
unfolding four_digits
year_text (pos y) = four_digits y
year_text (negsuc y) = b'-' ∷ four_digits (suc y)

unfoldable pub date_text : Civil → Bytes
unfolding year_text two_digits
date_text c = year_text c.year ++ (b'-' ∷ two_digits c.month) ++ (b'-' ∷ two_digits c.day)

unfoldable pub clock_text : Civil → Bytes
unfolding two_digits
clock_text c = two_digits c.hour ++ (b':' ∷ two_digits c.minute) ++ (b':' ∷ two_digits c.second)

-- A `time.Time`: an instant, and the offset in seconds of the location that it is shown in.
-- `none` is UTC; a location of its own with offset 0 is another value under Go's `==`.
pub record Time : Type 0 where
  pub instant : Instant
  pub zone : Option ℤ

-- The zone in the layout "Z07:00".
unfoldable pub zone_text : ℤ → Bytes
unfolding two_digits pos_part neg_part
zone_text offset =
    let minutes = (pos_part offset + neg_part offset) / 60 in
    let hhmm = two_digits (minutes / 60) ++ (b':' ∷ two_digits (minutes % 60)) in
    elim offset [
      | pos zero ↦ b'Z' ∷ []
      | pos (suc _) ↦ b'+' ∷ hhmm
      | negsuc _ ↦ (if minutes == 0 then b'+' else b'-') ∷ hhmm
    ]

-- `t.Format(time.RFC3339)`
unfoldable pub format : Time → Bytes
unfolding civil date_text clock_text zone_text add
format t =
    let offset : ℤ = elim t.zone [ none ↦ pos 0 | some o ↦ o ] in
    let c = civil (add t.instant (offset *ℤ pos nanos_per_second)) in
    date_text c ++ (b'T' ∷ clock_text c) ++ zone_text offset

-- `t.UTC().Format(time.RFC3339)`
unfoldable pub format_utc : Instant → Bytes
unfolding civil date_text clock_text
format_utc t = let c = civil t in date_text c ++ (b'T' ∷ clock_text c) ++ b'Z' ∷ []
