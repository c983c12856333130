-- ===== src/Limiter/History.antt =====
-- The specification of the limiter: a log of the granted attempts, from which nothing is dropped.
-- The counter, which forgets, gives the same answers to every run of a clock that does not go back.
use mathlib.Core.Option.{some-injective}
use uptime_service_backend.Base.{
  Option-cases, ◌+◌, ◌≡◌, refl, sym, ap, ◌∙◌, Bool, true, false, ◌&&◌, Option, some, List, [], ◌∷◌,
  inl, inr, arith, Bool-cases, to_ℕ, if◌then◌else◌, count, count-ext,
}
use uptime_service_backend.Base.Int.{ℤ, pos, ltb_ℤ, ◌≤ℤ◌}
use uptime_service_backend.Base.Text.{equal, equal_iff, equal→eq}
use uptime_service_backend.Base.Panics.{◌>>=◌, Returns-inv}
use uptime_service_backend.Base.Dict.{lookup}
use uptime_service_backend.Clock.{Instant, after, add, add_parts}
use uptime_service_backend.Keys.{Pk}
use uptime_service_backend.Limiter.{
  AttemptCounter, minus_one_hour, record_attempt, heap_of, IsValid, IsCapacity, new_attempt_counter,
}
use uptime_service_backend.Limiter.Evict.{is_recent}
use uptime_service_backend.Limiter.Record.{
  recent_attempts, Recorded, record_attempt_correct, new_attempt_counter-IsValid,
}

-- A key and the clock's reading at its call.
abbrev pub Attempt : Type 0
Attempt = Pk × Instant

-- Granted attempts, the latest first.
abbrev pub Log : Type 0
Log = List Attempt

-- The attempts of a key after an instant.
abbrev pub of_key_after : Pk → Instant → Attempt → Bool
of_key_after pk w a = equal a.0 pk && after a.1 w

-- An attempt is granted if fewer than the limit were granted to its key within the last hour.
unfoldable pub grants : ℤ → Log → Attempt → Bool
grants max log a = ltb_ℤ (pos (count (of_key_after a.0 (add a.1 minus_one_hour)) log)) max

unfoldable pub run_log : ℤ → Log → List Attempt → List Bool × Log
run_log max log [] = ([], log)
run_log max log (a ∷ calls) =
    let b = grants max log a in
    let (answers, final) = run_log max (if b then a ∷ log else log) calls in (b ∷ answers, final)

-- The counter's answers to a run of calls, and what it granted.
pub run_counter : AttemptCounter → Log → List Attempt → Option (List Bool × Log)
run_counter c log [] = some ([], log)
run_counter c log (a ∷ calls) = do
  r ← record_attempt c a.0 a.1
  rest ← run_counter r.1 (if r.0 then a ∷ log else log) calls
  some (r.0 ∷ rest.0, rest.1)

pub run_counter-nil :
    (c : AttemptCounter) (log : Log) (r : List Bool × Log)
    → run_counter c log [] ≡ some r
    → log ≡ r.1
unfolding run_counter
run_counter-nil c log r h = ap (λ (x : List Bool × Log). x.1) (some-injective ([], log) r h)

-- A run that returns has recorded its first attempt, and its rest returns.
pub run_counter-cons :
    (c : AttemptCounter) (log : Log) (a : Attempt) (calls : List Attempt) (r : List Bool × Log)
    → run_counter c log (a ∷ calls) ≡ some r
    → (b : Bool) × (c' : AttemptCounter) × (rest : List Bool × Log) × (record_attempt c a.0 a.1
        ≡ some (b, c'))
      × (run_counter c' (if b then a ∷ log else log) calls ≡ some rest)
      × (rest.1 ≡ r.1)
unfolding run_counter
run_counter-cons c log a calls r h = elim (Option-cases (record_attempt c a.0 a.1)) [
  | inl e ↦ let h' = rw e at h in cc
  | inr ((b, c'), e) ↦
      let h' = rw e at h in
      elim (Option-cases (run_counter c' (if b then a ∷ log else log) calls)) [
        | inl e' ↦ let h'' = rw e' at h' in cc
        | inr (rest, e') ↦
            let h'' = rw e' at h' in
            (
              b,
              c',
              rest,
              e,
              e',
              ap (λ (x : List Bool × Log). x.1) (some-injective (b ∷ rest.0, rest.1) r h''),
            )
      ]
]

-- The clock does not go back, from `last` on.
abbrev pub IsMonotone : Instant → List Attempt → Type 0
IsMonotone last [] = Unit
IsMonotone last (a ∷ calls) = (last ≤ℤ a.1) × IsMonotone a.1 calls

-- The counter agrees with the log on all that the last hour before `last`, and later, may show.
abbrev Tracks : AttemptCounter → Log → Instant → Type 0
Tracks c log last =
    (pk : Pk) (w : Instant)
    → add last minus_one_hour ≤ℤ w
    → count (λ t. after t w) (heap_of c pk) ≡ count (of_key_after pk w) log

grants-answer :
    (c : AttemptCounter) (log : Log) (last : Instant) (a : Attempt)
    → Tracks c log last
    → last ≤ℤ a.1
    → ltb_ℤ (pos (recent_attempts c a.0 a.1)) c.max_attempt ≡ grants c.max_attempt log a
unfolding grants
grants-answer c log last a tracks later =
    let bound : add last minus_one_hour ≤ℤ add a.1 minus_one_hour =
      omega (arith, add_parts last minus_one_hour, add_parts a.1 minus_one_hour) in
    rw (tracks a.0 (add a.1 minus_one_hour) bound)

count-logged :
    (f : Attempt → Bool) (b : Bool) (a : Attempt) (log : Log)
    → count f (if b then a ∷ log else log) ≡ (if b then to_ℕ (f a) else 0) + count f log
count-logged f true a log = refl
count-logged f false a log = omega arith

count-recent_after :
    (c : AttemptCounter) (pk : Pk) (cur w : Instant)
    → add cur minus_one_hour ≤ℤ w
    → count (λ t. after t w && is_recent cur t) (heap_of c pk)
      ≡ count (λ t. after t w) (heap_of c pk)
count-recent_after c pk cur w bound = count-ext _ _ (heap_of c pk) λ t. ground arith

record-Tracks :
    (c : AttemptCounter) (log : Log) (last : Instant) (a : Attempt) (r : Bool × AttemptCounter)
    → Tracks c log last
    → last ≤ℤ a.1
    → Recorded c a.0 a.1 r
    → Tracks r.1 (if r.0 then a ∷ log else log) a.1
record-Tracks c log last a r tracks later s pk w bound =
    let before : add last minus_one_hour ≤ℤ w =
      omega (arith, add_parts last minus_one_hour, add_parts a.1 minus_one_hour) in
    let logged = count-logged (of_key_after pk w) r.0 a log in
    elim (Bool-cases (equal a.0 pk)) [
      | inl e ↦
          let key : pk ≡ a.0 = sym (equal→eq a.0 pk e) in
          ground (
            arith,
            logged,
            ap (λ k. count (λ t. after t w) (heap_of r.1 k)) key,
            ap (λ k. count (λ t. after t w) (heap_of c k)) key,
            s.held (λ t. after t w),
            count-recent_after c a.0 a.1 w bound,
            tracks pk w before,
          )
      | inr e ↦ ground (
        arith,
        logged,
        ap (λ h. count (λ t. after t w) h) (s.others pk (λ q. ground (arith, equal_iff a.0 pk))),
        tracks pk w before,
      )
    ]

run_counter-Tracks :
    (max : ℤ) (c : AttemptCounter) (log : Log) (last : Instant) (calls : List Attempt)
    → IsValid c
    → c.max_attempt ≡ max
    → Tracks c log last
    → IsMonotone last calls
    → run_counter c log calls ≡ some (run_log max log calls)
unfolding run_counter run_log
run_counter-Tracks max c log last [] v e tracks mono = refl
run_counter-Tracks max c log last (a ∷ calls) v e tracks mono =
    let (r, recorded, s) = Returns-inv (record_attempt_correct c a.0 a.1 v) in
    let answer : r.0 ≡ grants max log a =
      s.answer ∙ grants-answer c log last a tracks mono.0 ∙ ap (λ m. grants m log a) e in
    let rest =
      run_counter-Tracks max r.1 (if r.0 then a ∷ log else log) a.1 calls s.valid (s.limit ∙ e)
        (record-Tracks c log last a r tracks mono.0 s) mono.1 in
    rw (recorded, rest, answer)

-- A counter that starts with a limit that `make` allows answers any run of calls, at instants that do
-- not go back, without a panic and exactly as the log that forgets nothing does; so it grants the
-- same attempts.
pub run_counter-run_log :
    (max : ℤ) (start : Instant) (calls : List Attempt)
    → IsCapacity max
    → IsMonotone start calls
    → run_counter (new_attempt_counter max) [] calls ≡ some (run_log max [] calls)
unfolding new_attempt_counter heap_of lookup
run_counter-run_log max start calls b mono =
    run_counter-Tracks max (new_attempt_counter max) [] start calls
      (new_attempt_counter-IsValid max b) refl (λ pk w p. refl) mono
