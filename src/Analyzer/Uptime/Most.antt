-- ===== src/Analyzer/Uptime/Most.antt =====
-- The percentage of GetUptime is that of the largest spaced choice of creation times.
use native.Mathlib.Nat.{div-le_self}
use mathlib.Core.Path.{subst}
use uptime_service_backend.Base.{
  ℕ, ◌-◌, ◌*◌, ◌/◌, if◌then◌else◌, arith, ◌≤◌, ◌≡◌, refl, Bool, false, none, some, List, [], ◌++◌,
  length,
}
use uptime_service_backend.Base.Result.{Result, ok}
use uptime_service_backend.Base.Text.{Bytes, lit}
use uptime_service_backend.Base.Int.{ℤ, pos, is_zero, wrap64_self, ◌-ℤ◌, ◌*ℤ◌}
use uptime_service_backend.Clock.{Instant, Duration, minute}
use uptime_service_backend.Externals.{Externals}
use uptime_service_backend.Request.{MetaToBeSaved}
use uptime_service_backend.Analyzer.{Halt, Listing, Libraries}
use uptime_service_backend.Analyzer.Identity.{Identity, Settings}
use uptime_service_backend.Analyzer.Uptime.{
  Progress, Floats, spacing, needed, percentage, get_uptime, visit_pages, start_of,
}
use uptime_service_backend.Analyzer.Uptime.Greedy.{
  greedy, IsOrdered, select, IsSpaced, greedy_optimal, greedy_choice,
}
use uptime_service_backend.Analyzer.Uptime.Times.{Times, times}
use uptime_service_backend.Analyzer.Uptime.Count.{CountIs, visit_pages-greedy}

-- A count is the largest number of marked times of which each is more than the wait after the
-- one before it.
pub record IsMost (wait : Duration) (ts : List Instant) (n : ℕ) : Type 0 where
  marks : List Bool
  spaced : IsSpaced wait none (select marks ts)
  size : length (select marks ts) ≡ n
  most :
      (others : List Bool) → IsSpaced wait none (select others ts) → length (select others ts) ≤ n

greedy-IsMost :
    (wait : Duration) (start : Instant) (ts : List Instant)
    → IsOrdered start ts
    → IsMost wait ts (greedy wait none ts)
greedy-IsMost wait start ts o =
    let (marks, spaced, size) = greedy_choice wait none ts in
    record {
      marks = marks;
      spaced = spaced;
      size = size;
      most = λ others s. greedy_optimal wait none start others ts o s;
    }

-- The loop's count, where the times are read.
visit_pages-IsMost :
    (lib : Libraries) (ext : Externals) (config : Settings) (identity : Identity)
    (matches : Bytes → Bool) (wait : Duration) (start : Instant) (empty : MetaToBeSaved)
    (pages : Listing) (s : Times)
    → lib.parse_time [] ≡ none
    → times lib ext config identity matches pages empty ≡ ok s
    → IsOrdered start s.1
    → (p : Progress) × (visit_pages lib ext config identity matches wait pages (start_of empty)
        ≡ ok p)
      × IsMost wait s.1 p.uptime
visit_pages-IsMost lib ext config identity matches wait start empty pages s no_time read ordered =
    let run : CountIs (λ ts n. n ≡ greedy wait none ts) (ok s)
        (visit_pages lib ext config identity matches wait pages (start_of empty)) =
      subst
        (λ (r : Result Halt Times).
          CountIs (λ ts n. n ≡ greedy wait none ts) r
            (visit_pages lib ext config identity matches wait pages (start_of empty)))
        read (visit_pages-greedy lib ext config identity matches wait pages empty no_time) in
    let (p, runs, same, count) = run in (p, runs, rw count (greedy-IsMost wait start s.1 ordered))

-- The same for GetUptime, in the code's own terms.
get_uptime-counts :
    {F : Type 0} (lib : Libraries) (ext : Externals) (config : Settings) (identity : Identity)
    (matches : Bytes → Bool) (floats : Floats F) (sync_period : ℤ) (start : Instant)
    (empty : MetaToBeSaved) (pages : Listing) (s : Times)
    → lib.parse_time [] ≡ none
    → lib.compile_regexp (lit ".*-" ++ identity.public_key ++ lit ".json") ≡ some matches
    → times lib ext config identity matches pages empty ≡ ok s
    → IsOrdered start s.1
    → is_zero sync_period ≡ false
    → (n : ℕ) × IsMost (spacing sync_period) s.1 n
      × (get_uptime lib ext config identity floats sync_period empty pages
          ≡ ok
              (record identity { uptime = percentage floats n (needed floats config sync_period) }))
unfolding get_uptime
get_uptime-counts lib ext config identity matches floats sync_period start empty pages s no_time
      regexp read ordered works =
    let (p, runs, most) =
      visit_pages-IsMost lib ext config identity matches (spacing sync_period) start empty pages s
        no_time read ordered in
    (p.uptime, most, rw (get_uptime, works, regexp, runs) refl)

-- The percentage, at most 100, with two decimals.
abbrev pub percent_text : {F : Type 0} → Floats F → ℕ → ℕ → Bytes
percent_text floats n wanted =
    let percent = floats.percent n (pos wanted) in
    floats.two_decimals (if floats.exceeds_hundred percent then floats.hundred else percent)

spacing-minutes : (m : ℕ) → 5 ≤ m → m ≤ 60 → spacing (pos m) ≡ pos ((m - 5) * minute)
unfolding spacing ◌-ℤ◌ ◌*ℤ◌
spacing-minutes m low high =
    let exact : ((pos m -ℤ pos 5) *ℤ pos minute) ≡ pos ((m - 5) * minute) = ground arith in
    rw exact (wrap64_self ((m - 5) * minute) (omega arith))

needed-hours :
    {F : Type 0} (floats : Floats F) (config : Settings) (m h : ℕ)
    → 5 ≤ m
    → m ≤ 60
    → floats.whole_hours config.period.interval ≡ pos h
    → h ≤ 2_562_047
    → needed floats config (pos m) ≡ pos (60 / m * h)
unfolding needed ◌*ℤ◌
needed-hours floats config m h low high hours small =
    let exact : (pos (60 / m) *ℤ pos h) ≡ pos (60 / m * h) = ground arith in
    let each : 60 / m ≤ 60 = div-le_self 60 m in
    let bound : 60 / m * h ≤ 60 * h = grind (arith, each) in
    rw (hours, exact) (wrap64_self (60 / m * h) (omega (arith, bound, small)))

-- With a sync period of 5 to 60 minutes, where RFC 3339 does not read the empty text as a time, the
-- pattern compiles, the interval has a number of whole hours that a duration can have and that is
-- not negative, and the creation times of the identity's submissions of the period can be read and
-- are listed in the order of time, GetUptime returns the identity with a percentage: that which the
-- largest number of those times, each later than the one before it by more than the sync period
-- less five minutes, is of 60 / period, rounded down, in each whole hour; at most 100, with two
-- decimals.
pub get_uptime-IsMost :
    {F : Type 0} (lib : Libraries) (ext : Externals) (config : Settings) (identity : Identity)
    (matches : Bytes → Bool) (floats : Floats F) (m h : ℕ) (start : Instant) (empty : MetaToBeSaved)
    (pages : Listing) (s : Times)
    → 5 ≤ m
    → m ≤ 60
    → floats.whole_hours config.period.interval ≡ pos h
    → h ≤ 2_562_047
    → lib.parse_time [] ≡ none
    → lib.compile_regexp (lit ".*-" ++ identity.public_key ++ lit ".json") ≡ some matches
    → times lib ext config identity matches pages empty ≡ ok s
    → IsOrdered start s.1
    → (n : ℕ) × IsMost (pos ((m - 5) * minute)) s.1 n
      × (get_uptime lib ext config identity floats (pos m) empty pages
          ≡ ok (record identity { uptime = percent_text floats n (60 / m * h) }))
unfolding percentage
get_uptime-IsMost lib ext config identity matches floats m h start empty pages s low high hours
      small no_time regexp read ordered =
    let (n, most, runs) =
      get_uptime-counts lib ext config identity matches floats (pos m) start empty pages s no_time
        regexp read ordered (ground arith) in
    (
      n,
      rw (← spacing-minutes m low high) most,
      rw (runs, needed-hours floats config m h low high hours small) refl,
    )
