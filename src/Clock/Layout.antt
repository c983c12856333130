-- ===== src/Clock/Layout.antt =====
-- The length of the RFC 3339 layout.
use uptime_service_backend.Base.Int.{pos}
use uptime_service_backend.Base.Decimal.{two_digits}
use uptime_service_backend.Base.{
  true, ltb, ◌<◌, ◌≤◌, ℕ, ◌≡◌, refl, arith, length, length-append, ◌∷◌, [], ◌++◌,
}
use uptime_service_backend.Clock.{Instant}
use uptime_service_backend.Clock.Civil.{
  Civil, civil, date_text, clock_text, year_text, four_digits, format_utc,
}

clock_text-length : (c : Civil) → length (clock_text c) ≡ 8
unfolding clock_text
clock_text-length c = refl

-- Long enough for the date to be cut out.
pub format_utc-length : (t : Instant) → 10 ≤ length (format_utc t)
unfolding format_utc
format_utc-length t =
    let c = civil t in
    omega (
      arith,
      clock_text-length c,
      length-append (date_text c ++ (b'T' ∷ clock_text c)) (b'Z' ∷ []),
      length-append (date_text c) (b'T' ∷ clock_text c),
    )

-- A time of the years 0 to 9999 has ten bytes for the date, and twenty together.
pub format_utc-length_year :
    (t : Instant) (y : ℕ) → (civil t).year ≡ pos y → y < 10000 → length (format_utc t) ≡ 20
unfolding format_utc date_text year_text four_digits clock_text two_digits
format_utc-length_year t y e b =
    let short : ltb y 10000 ≡ true = ground arith in simp (e, short) refl
