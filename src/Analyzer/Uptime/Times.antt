-- ===== src/Analyzer/Uptime/Times.antt =====
-- The creation times that src/itn_uptime_analyzer/uptime.go counts, read from a listing.
use uptime_service_backend.Base.{Bool, true, false, Option, none, some, List, [], ◌∷◌, ◌++◌}
use uptime_service_backend.Base.Result.{Result, ok, ◌>>=◌, or_fail}
use uptime_service_backend.Base.Text.{Bytes}
use uptime_service_backend.Clock.{Instant}
use uptime_service_backend.Externals.{Externals}
use uptime_service_backend.Request.{MetaToBeSaved}
use uptime_service_backend.Analyzer.{Halt, fatal, Object, Listing, Libraries}
use uptime_service_backend.Analyzer.Identity.{Identity, Settings}
use uptime_service_backend.Analyzer.Uptime.{read_object, matches_identity}

-- Creation times, with the metadata that was read last.
abbrev pub Times : Type 0
Times = MetaToBeSaved × List Instant

-- One reading after another.
abbrev pub and_then : Result Halt Times → (MetaToBeSaved → Result Halt Times) → Result Halt Times
and_then s next = s >>= λ x. next x.0 >>= λ y. ok (y.0, x.1 ++ y.1)

module _ (lib : Libraries) (ext : Externals) (config : Settings) (identity : Identity)
    (matches : Bytes → Bool) where
  abbrev pub time_if : MetaToBeSaved → Bool → Result Halt Times
  time_if m false = ok (m, [])
  time_if m true = or_fail (lib.parse_time m.created_at) fatal >>= λ t. ok (m, t ∷ [])

  abbrev pub time_if_read : MetaToBeSaved → Option MetaToBeSaved → Result Halt Times
  time_if_read m none = ok (m, [])
  time_if_read m (some m') = matches_identity lib ext config identity m' >>= time_if m'

  -- The creation times of the identity's submissions of the period.
  abbrev pub time_of : Object → MetaToBeSaved → Result Halt Times
  time_of obj m = read_object lib ext config identity matches obj m >>= time_if_read m

  abbrev pub page_times : List Object → MetaToBeSaved → Result Halt Times
  page_times [] m = ok (m, [])
  page_times (obj ∷ objs) m = and_then (time_of obj m) (page_times objs)

  abbrev pub times : Listing → MetaToBeSaved → Result Halt Times
  times [] m = ok (m, [])
  times (page ∷ pages) m = or_fail page fatal >>= λ objs. and_then (page_times objs m) (times pages)
