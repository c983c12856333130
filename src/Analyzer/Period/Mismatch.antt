-- ===== src/Analyzer/Period/Mismatch.antt =====
-- src/itn_uptime_analyzer/time.go: a period of which all three parts are given.
use uptime_service_backend.Base.{
  ℕ, ◌*◌, ◌%◌, ◌^◌, ◌<◌, ◌≡◌, ◌≢◌, refl, none, some, inl, inr, arith, Bool-cases,
}
use uptime_service_backend.Base.Int.{ℤ, pos, ◌*ℤ◌, wrap64, pos_part-pos, neg_part-pos}
use uptime_service_backend.Clock.{Instant, add, minute}
use uptime_service_backend.Analyzer.Period.{get_period_config, IsDuration, same, same→eq, sub-add}

-- So many minutes as a duration, which is what `parseDuration` makes of the environment's number.
abbrev pub minutes : ℕ → ℤ
minutes m = pos (m * minute)

product_wraps : (m : ℕ) → 0 < m → m < 153_722_868 → (m * minute * minute) % 2 ^ 64 ≢ m * minute
product_wraps m p q h = absurd (omega (arith, h))

wrapped_differs : (m : ℕ) → 0 < m → m < 153_722_868 → minutes m ≢ wrap64 (pos (m * minute * minute))
unfolding wrap64
wrapped_differs m p q h = absurd (ground (arith, h, product_wraps m p q))

minutes-IsDuration : (m : ℕ) → m < 153_722_868 → IsDuration (minutes m)
minutes-IsDuration m q =
    (omega (arith, pos_part-pos (m * minute)), omega (arith, neg_part-pos (m * minute)))

-- A start, the end that lies `m` minutes after it and an interval that is already the duration of
-- `m` minutes are refused as a mismatch, for every `m` above zero whose duration fits an int64 (the
-- largest is 153,722,867): the interval is multiplied by a minute once more.
pub get_period_config-minutes :
    (start now : Instant) (m : ℕ)
    → 0 < m
    → m < 153_722_868
    → get_period_config (some start) (some (add start (minutes m))) (some (minutes m)) now ≡ none
unfolding get_period_config ◌*ℤ◌
get_period_config-minutes start now m p q =
    let product : (minutes m *ℤ pos minute) ≡ pos (m * minute * minute) = ground arith in
    elim (Bool-cases (same (minutes m) (wrap64 (pos (m * minute * minute))))) [
      | inl match ↦ absurd (wrapped_differs m p q (same→eq _ _ match))
      | inr differ ↦ rw (sub-add start (minutes m) (minutes-IsDuration m q), product, differ) refl
    ]
