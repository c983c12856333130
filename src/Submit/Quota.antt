-- ===== src/Submit/Quota.antt =====
-- What a producer can have saved in an hour, over any run of the handler.
pub mod Fair
use uptime_service_backend.Base.{
  ◌≤◌, ◌≡◌, refl, Bool, true, false, none, some, List, [], ◌∷◌, inl, inr, arith, Bool-cases, count,
  if◌then◌else◌,
}
use uptime_service_backend.Base.Int.{ℤ, pos, ◌≤ℤ◌, pos_part-pos, neg_part-pos, ltb_ℤ}
use uptime_service_backend.Base.Result.{Result, ok, err}
use uptime_service_backend.Clock.{Instant}
use uptime_service_backend.Externals.{Externals}
use uptime_service_backend.Keys.{Pk}
use uptime_service_backend.Request.{SubmitRequest}
use uptime_service_backend.Whitelist.{WhitelistMVar}
use uptime_service_backend.Limiter.{
  AttemptCounter, IsCapacity, max_capacity, record_attempt, new_attempt_counter,
}
use uptime_service_backend.Limiter.Record.{record_attempt-too_large}
use uptime_service_backend.Limiter.History.{
  Attempt, Log, IsMonotone, run_counter, run_counter-nil, run_counter-cons,
}
use uptime_service_backend.Limiter.Window.{in_hour, run_counter-in_hour}
use uptime_service_backend.Paths.{ObjectsToSave}
use uptime_service_backend.Submit.{
  App, HttpRequest, Stop, Served, admit, accept, objects_to_save, serve_http, check_request,
  check_whitelist, check_signature,
}
use uptime_service_backend.Submit.Serve.{Result-cases}

-- A call of the handler: the request, the keys that are registered then, and the two readings of
-- the clock. The calls of a run are in the order in which they take the counter's lock.
pub record Call : Type 0 where
  pub http : HttpRequest
  pub whitelist : WhitelistMVar
  pub submitted_at : Instant
  pub attempt_at : Instant

abbrev pub app_at : App → AttemptCounter → Call → App
app_at app c call = record app { submit_counter = c; whitelist = call.whitelist }

module _ (ext : Externals) (app : App) where
  -- The admitted request of a call.
  abbrev pub admitted : Call → Result Stop SubmitRequest
  admitted call = admit ext (app_at app app.submit_counter call) call.http call.submitted_at

  abbrev pub serve : AttemptCounter → Call → Served
  serve c call = serve_http ext (app_at app c call) call.http call.submitted_at call.attempt_at

  -- The attempts that the calls make.
  unfoldable pub attempts : List Call → List Attempt
  attempts [] = []
  attempts (call ∷ calls) =
      let rest = attempts calls in
      elim (admitted call) [ err _ ↦ rest | ok req ↦ (req.submitter, call.attempt_at) ∷ rest ]

  -- The submissions that are saved (a call that is not admitted saves none), by submitter and time, the latest first.
  abbrev log_saved : Result Stop SubmitRequest → Instant → List ObjectsToSave → Log → Log
  log_saved m at [] log = log
  log_saved (err _) at (objs ∷ more) log = log
  log_saved (ok req) at (objs ∷ more) log = (req.submitter, at) ∷ log

  pub saved_log : AttemptCounter → Log → List Call → Log
  saved_log c log [] = log
  saved_log c log (call ∷ calls) =
      saved_log (serve c call).counter
        (log_saved (admitted call) call.attempt_at (serve c call).saved log) calls

  admit-counter :
      (c : AttemptCounter) (call : Call)
      → admit ext (app_at app c call) call.http call.submitted_at ≡ admitted call
  unfolding admit check_request check_whitelist check_signature
  admit-counter c call = refl

  -- A call that is not admitted changes nothing.
  serve-err :
      (c : AttemptCounter) (call : Call) (stop : Stop)
      → admitted call ≡ err stop
      → ((serve c call).counter ≡ c) × ((serve c call).saved ≡ [])
  unfolding serve_http
  serve-err c call stop e =
      let e' : admit ext (app_at app c call) call.http call.submitted_at ≡ err stop =
        rw (admit-counter c call) e in
      rw (e', serve_http) (refl, refl)

  -- A call that is admitted takes one attempt, and saves at most if it is granted.
  serve-ok :
      (c : AttemptCounter) (call : Call) (req : SubmitRequest) (b : Bool) (c' : AttemptCounter)
      → admitted call ≡ ok req
      → record_attempt c req.submitter call.attempt_at ≡ some (b, c')
      → ((serve c call).counter ≡ c') × (b ≡ false → (serve c call).saved ≡ [])
  unfolding serve_http accept
  serve-ok c call req true c' e g =
      let e' : admit ext (app_at app c call) call.http call.submitted_at ≡ ok req =
        rw (admit-counter c call) e in
      elim (Result-cases (objects_to_save ext req call.http call.submitted_at)) [
        | inl (objs, made) ↦ rw (e', serve_http) (rw (g, accept) (rw made (refl, λ h. cc)))
        | inr (stop, failed) ↦ rw (e', serve_http) (rw (g, accept) (rw failed (refl, λ h. cc)))
      ]
  serve-ok c call req false c' e g =
      let e' : admit ext (app_at app c call) call.http call.submitted_at ≡ ok req =
        rw (admit-counter c call) e in
      rw (e', serve_http) (rw (g, accept) (refl, λ h. refl))

  -- If the limiter panics, nothing is saved and its counter is as before.
  serve-panics :
      (c : AttemptCounter) (call : Call) (req : SubmitRequest)
      → admitted call ≡ ok req
      → record_attempt c req.submitter call.attempt_at ≡ none
      → ((serve c call).counter ≡ c) × ((serve c call).saved ≡ [])
  unfolding serve_http accept
  serve-panics c call req e g =
      let e' : admit ext (app_at app c call) call.http call.submitted_at ≡ ok req =
        rw (admit-counter c call) e in
      rw (e', serve_http) (rw (g, accept) (refl, refl))

  -- Under a limit beyond what `make` allows nothing is ever saved.
  saved_log-too_large :
      (max : ℤ) (log : Log) (calls : List Call)
      → ltb_ℤ (pos max_capacity) max ≡ true
      → saved_log (new_attempt_counter max) log calls ≡ log
  unfolding saved_log
  saved_log-too_large max log [] h = refl
  saved_log-too_large max log (call ∷ calls) h =
      let (same, nothing) : ((serve (new_attempt_counter max) call).counter
            ≡ new_attempt_counter max)
          × ((serve (new_attempt_counter max) call).saved ≡ []) =
        elim (Result-cases (admitted call)) [
          | inr (stop, e) ↦ serve-err (new_attempt_counter max) call stop e
          | inl (req, e) ↦
              serve-panics (new_attempt_counter max) call req e
                (record_attempt-too_large max req.submitter call.attempt_at h)
        ] in
      rw (same, nothing) (saved_log-too_large max log calls h)

  module _ (f : Attempt → Bool) where
    -- A saved submission stands for a granted attempt.
    log_saved-le :
        (req : SubmitRequest) (at : Instant) (b : Bool) (saved : List ObjectsToSave)
        (log granted : Log)
        → (b ≡ false → saved ≡ [])
        → count f log ≤ count f granted
        → count f (log_saved (ok req) at saved log)
          ≤ count f (if b then (req.submitter, at) ∷ granted else granted)
    log_saved-le req at true [] log granted none_saved le = omega (arith, le)
    log_saved-le req at false [] log granted none_saved le = le
    log_saved-le req at true (objs ∷ more) log granted none_saved le = omega (arith, le)
    log_saved-le req at false (objs ∷ more) log granted none_saved le =
        absurd (some_saved (none_saved refl))
      where
        some_saved : ¬ (Path (List ObjectsToSave) (objs ∷ more) [])
        some_saved h = cc

    saved_log-le :
        (c : AttemptCounter) (log granted : Log) (calls : List Call) (r : List Bool × Log)
        → count f log ≤ count f granted
        → run_counter c granted (attempts calls) ≡ some r
        → count f (saved_log c log calls) ≤ count f r.1
    unfolding saved_log attempts
    saved_log-le c log granted [] r le h = rw⁻¹ (run_counter-nil c granted r h) le
    saved_log-le c log granted (call ∷ calls) r le h = elim (Result-cases (admitted call)) [
      | inr (stop, e) ↦
          let (same, nothing) = serve-err c call stop e in
          let h' = rw (e, attempts) at h in
          rw (same, nothing) (saved_log-le c log granted calls r le h')
      | inl (req, e) ↦
          let h' = rw (e, attempts) at h in
          let (b, c', rest, recorded, ran, same) =
            run_counter-cons c granted (req.submitter, call.attempt_at) (attempts calls) r h' in
          let (next, unsaved) = serve-ok c call req b c' e recorded in
          rw (next, e, ← same)
            (saved_log-le c' (log_saved (ok req) call.attempt_at (serve c call).saved log)
              (if b then (req.submitter, call.attempt_at) ∷ granted else granted) calls rest
              (log_saved-le req call.attempt_at b (serve c call).saved log granted unsaved le) ran)
    ]

  granted_log-in_hour :
      (max : ℤ) (start : Instant) (calls : List Call) (pk : Pk) (w : Instant)
      → IsCapacity max
      → IsMonotone start (attempts calls)
      → pos (count (in_hour pk w) (saved_log (new_attempt_counter max) [] calls)) ≤ℤ max
  granted_log-in_hour max start calls pk w b mono =
      let (r, ran, bound) = run_counter-in_hour max start (attempts calls) pk w b mono in
      let fewer =
        saved_log-le (in_hour pk w) (new_attempt_counter max) [] [] calls r (omega arith) ran in
      let saved = count (in_hour pk w) (saved_log (new_attempt_counter max) [] calls) in
      let granted = count (in_hour pk w) r.1 in
      ground (
        arith,
        bound,
        fewer,
        pos_part-pos saved,
        neg_part-pos saved,
        pos_part-pos granted,
        neg_part-pos granted,
      )

  -- Over any run of calls that starts with a new counter whose limit is zero or more, and takes its
  -- lock at instants that do not go back, no hour holds more saved submissions of one key than the
  -- limit, whatever the requests are and however the registered keys change in between.
  pub saved_log-in_hour :
      (max : ℤ) (start : Instant) (calls : List Call) (pk : Pk) (w : Instant)
      → pos 0 ≤ℤ max
      → IsMonotone start (attempts calls)
      → pos (count (in_hour pk w) (saved_log (new_attempt_counter max) [] calls)) ≤ℤ max
  saved_log-in_hour max start calls pk w b mono = elim (Bool-cases (ltb_ℤ (pos max_capacity) max)) [
    | inl huge ↦ rw (saved_log-too_large max [] calls huge) b
    | inr fits ↦
        granted_log-in_hour max start calls pk w (record { least = b; most = ground arith }) mono
  ]
