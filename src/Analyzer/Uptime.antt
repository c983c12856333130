-- ===== src/Analyzer/Uptime.antt =====
-- src/itn_uptime_analyzer/uptime.go: how many submissions of an identity count in a period.
pub mod Count
pub mod Greedy
pub mod Times
pub mod Most
pub mod Portless
mod Tests
use uptime_service_backend.Base.{
  ℕ, zero, suc, ◌+◌, ◌*◌, ◌/◌, ◌≡◌, Bool, true, false, not, ◌&&◌, Option, none, some, List, [], ◌∷◌,
  ◌++◌, if◌then◌else◌,
}
use uptime_service_backend.Base.Result.{Result, ok, err, ◌>>=◌, ◌>>◌, refuse_if, or_fail}
use uptime_service_backend.Base.Int.{
  ℤ, pos, negsuc, ◌-ℤ◌, ◌*ℤ◌, wrap64, is_zero, pos_part, neg_part,
}
use uptime_service_backend.Base.Text.{Bytes, lit, equal, is_empty}
use uptime_service_backend.Base.Decimal.{itoa}
use uptime_service_backend.Clock.{Instant, Duration, add, after, minute}
use uptime_service_backend.Externals.{Externals}
use uptime_service_backend.Keys.{pk_string}
use uptime_service_backend.Request.{MetaToBeSaved}
use uptime_service_backend.Analyzer.{
  Halt, fatal, panics, Object, Listing, Libraries, get_submission_time,
}
use uptime_service_backend.Analyzer.Identity.{Identity, Settings}

-- The local variables of the loop: the metadata that objects are decoded over, the creation time
-- of the submission that counted last, as text, and the count.
pub record Progress : Type 0 where
  pub meta : MetaToBeSaved
  pub last : Bytes
  pub uptime : ℕ

-- `time.Duration(syncPeriod-5) * time.Minute`
unfoldable pub spacing : ℤ → Duration
spacing sync_period = wrap64 ((sync_period -ℤ pos 5) *ℤ pos minute)

-- Go's division of ints, which rounds towards zero.
abbrev quotient : ℕ → ℤ → ℤ
quotient a (pos b) = pos (a / b)
quotient a (negsuc b) = pos 0 -ℤ pos (a / suc b)

-- Floating-point numbers, as far as they are used: the whole hours of a duration, the percentage
-- that one int is of another, whether it exceeds 100, and its text with two decimals.
pub record Floats (F : Type 0) : Type 0 where
  pub whole_hours : Duration → ℤ
  pub percent : ℕ → ℤ → F
  pub exceeds_hundred : F → Bool
  pub hundred : F
  pub two_decimals : F → Bytes

abbrev pub start_of : MetaToBeSaved → Progress
start_of empty = record { meta = empty; last = []; uptime = 0 }

-- How many submissions a whole period needs.
unfoldable pub needed : {F : Type 0} → Floats F → Settings → ℤ → ℤ
needed floats config sync_period =
    wrap64 (quotient 60 sync_period *ℤ floats.whole_hours config.period.interval)

-- The percentage that a count is of those needed, at most 100, as text.
unfoldable pub percentage : {F : Type 0} → Floats F → ℕ → ℤ → Bytes
percentage floats uptime wanted =
    let percent = floats.percent uptime wanted in
    floats.two_decimals (if floats.exceeds_hundred percent then floats.hundred else percent)

module _ (lib : Libraries) (ext : Externals) (config : Settings) (identity : Identity) where
  -- The comparison with the identity. Its port is only read once key and address agree.
  unfoldable pub matches_identity : MetaToBeSaved → Result Halt Bool
  matches_identity m =
      let remote_addr = if config.ignore_ips then [] else m.remote_addr in
      let same =
        equal identity.public_key (pk_string ext m.submitter)
        && equal identity.public_ip remote_addr in
      let with_port : Result Halt Bool = elim identity.graph_ql_port [
        | none ↦ err panics
        | some port ↦ ok (equal port (itoa m.graphql_control_port))
      ] in
      if not config.ignore_ips && not (is_zero m.graphql_control_port)
      then if same then with_port else ok false
      else ok same

  -- The object's metadata, if its key has the identity's name and its time is within the period.
  unfoldable pub read_object :
      (Bytes → Bool) → Object → MetaToBeSaved → Result Halt (Option MetaToBeSaved)
  read_object matches obj m = do
    at ← get_submission_time lib obj.key
    let read = do
      contents ← or_fail obj.contents fatal
      m' ← or_fail (lib.unmarshal_meta contents m) fatal
      ok (some m')
    let in_period = after at config.period.start && after config.period.end at
    if matches obj.key && in_period then read else ok none

  -- A submission counts if it is the first, or was created long enough after the last that did.
  unfoldable pub count_submission : Duration → Progress → Result Halt Progress
  count_submission wait p = do
    let counted = record p { uptime = p.uptime + 1; last = p.meta.created_at }
    current ← or_fail (lib.parse_time p.meta.created_at) fatal
    let compare = do
      last ← or_fail (lib.parse_time p.last) fatal
      ok (if after current (add last wait) then counted else p)
    if is_empty p.last then ok counted else compare

  unfoldable pub visit : (Bytes → Bool) → Duration → Object → Progress → Result Halt Progress
  visit matches wait obj p = do
    read ← read_object matches obj p.meta
    elim read [
      | none ↦ ok p
      | some m ↦ (do
        same ← matches_identity m
        let p' = record p { meta = m }
        if same then count_submission wait p' else ok p')
    ]

  unfoldable pub visit_page :
      (Bytes → Bool) → Duration → List Object → Progress → Result Halt Progress
  visit_page matches wait [] p = ok p
  visit_page matches wait (obj ∷ objs) p = do
    p' ← visit matches wait obj p
    visit_page matches wait objs p'

  unfoldable pub visit_pages : (Bytes → Bool) → Duration → Listing → Progress → Result Halt Progress
  visit_pages matches wait [] p = ok p
  visit_pages matches wait (page ∷ pages) p = do
    objs ← or_fail page fatal
    p' ← visit_page matches wait objs p
    visit_pages matches wait pages p'

  -- GetUptime, on the listing of the day on which the period starts. A sync period of 0 is a
  -- division by zero.
  unfoldable pub get_uptime :
      {F : Type 0} → Floats F → ℤ → MetaToBeSaved → Listing → Result Halt Identity
  get_uptime floats sync_period empty pages = do
    refuse_if (is_zero sync_period) panics
    matches ← or_fail (lib.compile_regexp (lit ".*-" ++ identity.public_key ++ lit ".json")) fatal
    p ← visit_pages matches (spacing sync_period) pages (start_of empty)
    ok (record identity { uptime = percentage floats p.uptime (needed floats config sync_period) })
