-- ===== src/Limiter/Window.antt =====
-- What the limit means: no hour holds more granted attempts of a key than the limit.
use native.Mathlib.Nat.{zero-add}
use uptime_service_backend.Base.{
  ◌≡◌, Bool, true, ◌&&◌, not, some, List, [], ◌∷◌, inl, inr, arith, Bool-cases, count, count-le,
}
use uptime_service_backend.Base.Int.{ℤ, pos, ◌≤ℤ◌, pos_part-pos, neg_part-pos}
use uptime_service_backend.Base.Text.{equal_iff}
use uptime_service_backend.Clock.{Instant, after, add, add_parts}
use uptime_service_backend.Keys.{Pk}
use uptime_service_backend.Limiter.{IsCapacity, minus_one_hour, new_attempt_counter}
use uptime_service_backend.Limiter.History.{
  Attempt, Log, of_key_after, grants, run_log, run_counter, IsMonotone, run_counter-run_log,
}

-- The attempts of a key in the hour that ends at `w`: after `w - 1h`, and not after `w`.
abbrev pub in_hour : Pk → Instant → Attempt → Bool
in_hour pk w a = of_key_after pk (add w minus_one_hour) a && not (after a.1 w)

-- Every entry was granted by the ones below it.
IsGranted : ℤ → Log → Type 0
IsGranted max [] = Unit {0}
IsGranted max (a ∷ log) = (grants max log a ≡ true) × IsGranted max log

IsGranted-in_hour :
    (max : ℤ) (pk : Pk) (w : Instant) (log : Log)
    → pos 0 ≤ℤ max
    → IsGranted max log
    → pos (count (in_hour pk w) log) ≤ℤ max
unfolding IsGranted grants
IsGranted-in_hour max pk w [] b g = b
IsGranted-in_hour max pk w (a ∷ log) b g = elim (Bool-cases (in_hour pk w a)) [
  | inl inside ↦
      let key : a.0 ≡ pk = ground (arith, equal_iff a.0 pk) in
      let fewer = count-le (in_hour pk w) (of_key_after a.0 (add a.1 minus_one_hour)) log λ x h.
        ground (
          arith,
          equal_iff x.0 pk,
          equal_iff x.0 a.0,
          add_parts w minus_one_hour,
          add_parts a.1 minus_one_hour,
        ) in
      ground (
        arith,
        g.0,
        fewer,
        pos_part-pos (count (of_key_after a.0 (add a.1 minus_one_hour)) log),
        neg_part-pos (count (of_key_after a.0 (add a.1 minus_one_hour)) log),
        pos_part-pos (count (in_hour pk w) (a ∷ log)),
        neg_part-pos (count (in_hour pk w) (a ∷ log)),
      )
  | inr outside ↦ rw outside (rw zero-add (IsGranted-in_hour max pk w log b g.1))
]

run_log-IsGranted :
    (max : ℤ) (log : Log) (calls : List Attempt)
    → IsGranted max log
    → IsGranted max (run_log max log calls).1
unfolding run_log IsGranted
run_log-IsGranted max log [] g = g
run_log-IsGranted max log (a ∷ calls) g = elim (Bool-cases (grants max log a)) [
  | inl e ↦ rw e (run_log-IsGranted max (a ∷ log) calls (e, g))
  | inr e ↦ rw e (run_log-IsGranted max log calls g)
]

-- A counter whose limit `make` allows answers any run of calls, at instants that do not go back,
-- without a panic, and no hour holds more granted attempts of one key than the limit.
pub run_counter-in_hour :
    (max : ℤ) (start : Instant) (calls : List Attempt) (pk : Pk) (w : Instant)
    → IsCapacity max
    → IsMonotone start calls
    → (r : List Bool × Log) × (run_counter (new_attempt_counter max) [] calls ≡ some r)
      × (pos (count (in_hour pk w) r.1) ≤ℤ max)
unfolding IsGranted
run_counter-in_hour max start calls pk w b mono = (
  run_log max [] calls,
  run_counter-run_log max start calls b mono,
  IsGranted-in_hour max pk w _ b.least (run_log-IsGranted max [] calls tt),
)
