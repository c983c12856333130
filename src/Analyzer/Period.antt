-- ===== src/Analyzer/Period.antt =====
-- src/itn_uptime_analyzer/time.go: the period to analyse, from the bounds that are given.
pub mod Mismatch
use uptime_service_backend.Base.{
  zero, suc, ◌*◌, ◌^◌, ◌-◌, ◌≡◌, ◌<◌, refl, Bool, true, false, Option, none, some, arith,
  if◌then◌else◌, ◌&&◌,
}
use uptime_service_backend.Base.Int.{
  ℤ, pos, negsuc, ◌+ℤ◌, ◌-ℤ◌, ◌*ℤ◌, wrap64, ltb_ℤ, leb_ℤ, pos_part, neg_part, +ℤ_parts, -ℤ_parts,
  eq_of_parts, pos_part-pos, neg_part-pos,
}
use mathlib.Core.Path.{subst}
use mathlib.Core.Option.{some-injective}
use uptime_service_backend.Clock.{Instant, Duration, add, hour, minute}
use uptime_service_backend.Clock.Civil.{civil, mod_floor}

pub record PeriodConfig : Type 0 where
  pub start : Instant
  pub end : Instant
  pub interval : Duration

-- The nearest value of an int64.
unfoldable pub clamp : ℤ → Duration
clamp d =
    if ltb_ℤ (pos (2 ^ 63 - 1)) d
    then pos (2 ^ 63 - 1)
    else if ltb_ℤ d (negsuc (2 ^ 63 - 1))
    then negsuc (2 ^ 63 - 1)
    else d

-- `t.Sub(u)`, which stays within an int64.
unfoldable pub sub : Instant → Instant → Duration
sub t u = clamp (t -ℤ u)

-- `-d` on an int64.
unfoldable pub negate : Duration → Duration
negate d = wrap64 (pos 0 -ℤ d)

abbrev pub same : Duration → Duration → Bool
same d e = leb_ℤ d e && leb_ℤ e d

abbrev half_day : Duration
half_day = pos (12 * hour)

-- `currentTime.Truncate(time.Hour * 12)`
pub default_end_time : Instant → Instant
default_end_time now = now -ℤ pos (mod_floor now (12 * hour))

-- What nothing calls: the start of a period that ends at a time, and whether the hour of a time in
-- UTC lies before that of an interval.
unfoldable pub deafult_period_start : Instant → Instant
deafult_period_start period_end = add period_end (pos 0 -ℤ half_day)

unfoldable pub submissions_in_multiple_buckets : Instant → ℤ → Bool
submissions_in_multiple_buckets current_time execution_interval =
    let current_hour = pos (civil current_time).hour in
    if ltb_ℤ current_hour execution_interval
    then true
    else if leb_ℤ execution_interval current_hour
    then false
    else false

-- `none` is the fatal error; the last argument is the time now.
unfoldable pub get_period_config :
    Option Instant → Option Instant → Option Duration → Instant → Option PeriodConfig
get_period_config (some s) (some e) (some i) now =
    let interval = wrap64 (i *ℤ pos minute) in
    if same (sub e s) interval
    then some (record { start = s; end = e; interval = interval })
    else none
get_period_config (some s) (some e) none now =
    some (record { start = s; end = e; interval = sub e s })
get_period_config (some s) none (some i) now =
    some (record { start = s; end = add s i; interval = i })
get_period_config none (some e) (some i) now =
    some (record { start = add e (negate i); end = e; interval = i })
get_period_config (some s) none none now =
    some (record { start = s; end = add s half_day; interval = half_day })
get_period_config none (some e) none now =
    some (record { start = add e (negate half_day); end = e; interval = half_day })
get_period_config none none (some i) now =
    let e = default_end_time now in
    some (record { start = add e (negate i); end = e; interval = i })
get_period_config none none none now =
    let e = default_end_time now in
    some (record { start = add e (negate half_day); end = e; interval = half_day })

-- Durations whose negation is one too.
abbrev pub IsDuration : Duration → Type 0
IsDuration d = (pos_part d < 2 ^ 63) × (neg_part d < 2 ^ 63)

clamp_self : (d : Duration) → IsDuration d → clamp d ≡ d
unfolding clamp pos_part neg_part
clamp_self (pos n) h = ground (arith, h.0)
clamp_self (negsuc n) h = ground (arith, h.1)

wrap64_self : (d : Duration) → IsDuration d → wrap64 d ≡ d
unfolding wrap64 pos_part neg_part
wrap64_self (pos n) h = ground (arith, h.0)
wrap64_self (negsuc n) h = ground (arith, h.1)

sub_of : (t u : Instant) (d : Duration) → IsDuration d → t -ℤ u ≡ d → sub t u ≡ d
unfolding sub
sub_of t u d h e = rw e (clamp_self d h)

pub sub-add : (t : Instant) (d : Duration) → IsDuration d → sub (add t d) t ≡ d
unfolding add
sub-add t d h =
    sub_of (t +ℤ d) t d h
      (eq_of_parts (t +ℤ d -ℤ t) d (omega (arith, +ℤ_parts t d, -ℤ_parts (t +ℤ d) t)))

negation-IsDuration : (d : Duration) → IsDuration d → IsDuration (pos 0 -ℤ d)
unfolding ◌-ℤ◌ pos_part neg_part
negation-IsDuration (pos zero) h = (ground (arith, h.0), ground (arith, h.0))
negation-IsDuration (pos (suc n)) h = (ground (arith, h.0), ground (arith, h.0))
negation-IsDuration (negsuc n) h = (ground (arith, h.1), ground (arith, h.1))

negate_exact : (d : Duration) → IsDuration d → negate d ≡ pos 0 -ℤ d
unfolding negate
negate_exact d h = wrap64_self (pos 0 -ℤ d) (negation-IsDuration d h)

sub-add-negate : (t : Instant) (d : Duration) → IsDuration d → sub t (add t (negate d)) ≡ d
unfolding add
sub-add-negate t d h =
    let e = pos 0 -ℤ d in
    rw (negate_exact d h) (
      sub_of t (t +ℤ e) d h (
        eq_of_parts (t -ℤ (t +ℤ e)) d (
          omega (
            arith,
            +ℤ_parts t e,
            -ℤ_parts t (t +ℤ e),
            -ℤ_parts (pos 0) d,
            pos_part-pos 0,
            neg_part-pos 0,
          ))))

-- What is given is taken over.
abbrev pub Kept : Option Instant → Instant → Type 0
Kept none t = Unit
Kept (some s) t = t ≡ s

abbrev pub IsDurationOption : Option Duration → Type 0
IsDurationOption none = Unit
IsDurationOption (some d) = IsDuration d

half_day-IsDuration : IsDuration half_day
unfolding pos_part neg_part
half_day-IsDuration = (omega arith, omega arith)

pub same→eq : (d e : Duration) → same d e ≡ true → d ≡ e
same→eq d e h = eq_of_parts d e (ground (arith, h))

abbrev Consistent : Option Instant → Option Instant → PeriodConfig → Type 0
Consistent s e p = (sub p.end p.start ≡ p.interval) × Kept s p.start × Kept e p.end

if_some :
    (b : Bool) (x p : PeriodConfig) → (if b then some x else none) ≡ some p → (b ≡ true) × (x ≡ p)
if_some true x p h = (refl, some-injective x p h)
if_some false x p h = cc

-- If an interval, where one is given, is more than the least int64, then a period that is returned
-- has the bounds that are given, and its interval is the time from its start to its end.
pub get_period_config_lem :
    (start end : Option Instant) (interval : Option Duration) (now : Instant)
    → IsDurationOption interval
    → (p : PeriodConfig) → get_period_config start end interval now ≡ some p
    → (sub p.end p.start ≡ p.interval) × Kept start p.start × Kept end p.end
unfolding get_period_config
get_period_config_lem (some s) (some e) (some i) now d p h =
    let (match, e≡p) = if_some (same (sub e s) (wrap64 (i *ℤ pos minute))) _ p h in
    subst (Consistent (some s) (some e)) e≡p (same→eq _ _ match, refl, refl)
get_period_config_lem (some s) (some e) none now d p h =
    subst (Consistent (some s) (some e)) (some-injective _ _ h) (refl, refl, refl)
get_period_config_lem (some s) none (some i) now d p h =
    subst (Consistent (some s) none) (some-injective _ _ h) (sub-add s i d, refl, tt)
get_period_config_lem none (some e) (some i) now d p h =
    subst (Consistent none (some e)) (some-injective _ _ h) (sub-add-negate e i d, tt, refl)
get_period_config_lem (some s) none none now d p h =
    subst (Consistent (some s) none) (some-injective _ _ h)
      (sub-add s half_day half_day-IsDuration, refl, tt)
get_period_config_lem none (some e) none now d p h =
    subst (Consistent none (some e)) (some-injective _ _ h)
      (sub-add-negate e half_day half_day-IsDuration, tt, refl)
get_period_config_lem none none (some i) now d p h =
    subst (Consistent none none) (some-injective _ _ h)
      (sub-add-negate (default_end_time now) i d, tt, tt)
get_period_config_lem none none none now d p h =
    subst (Consistent none none) (some-injective _ _ h)
      (sub-add-negate (default_end_time now) half_day half_day-IsDuration, tt, tt)
