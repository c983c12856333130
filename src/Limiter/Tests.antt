-- ===== src/Limiter/Tests.antt =====
-- Runs of the limiter: two attempts of a key are allowed in an hour.
use uptime_service_backend.Base.{
  zero, suc, ◌≡◌, refl, Bool, true, false, some, List, [], ◌∷◌, arith, count,
}
use uptime_service_backend.Base.Int.{pos, ◌≤ℤ◌, ◌+ℤ◌, pos_part, neg_part}
use uptime_service_backend.Base.Panics.{Returns}
use uptime_service_backend.Base.Text.{equal}
use uptime_service_backend.Clock.{Instant, add}
use uptime_service_backend.Samples.{key}
use uptime_service_backend.Limiter.{
  IsCapacity, max_capacity, new_attempt_counter, record_attempt, evict,
}
use uptime_service_backend.Limiter.Heap.{TimeHeap, heap_push, heap_pop}
use uptime_service_backend.Limiter.Heap.Order.{IsHeap, SameTimes}
use uptime_service_backend.Limiter.Heap.Up.{heap_push_correct}
use uptime_service_backend.Limiter.Heap.Down.{heap_pop_correct, Popped}
use uptime_service_backend.Limiter.Evict.{evict_correct, Recent}
use uptime_service_backend.Limiter.Record.{
  Recorded, record_attempt_correct, new_attempt_counter-IsValid, IsCapacity-pos,
}
use uptime_service_backend.Limiter.History.{
  Attempt, Log, IsMonotone, grants, run_log, run_counter, run_counter-run_log,
}
use uptime_service_backend.Limiter.Window.{in_hour, run_counter-in_hour}

abbrev now : Instant
now = pos 63_000_000_000_000_000_000

abbrev later : Instant
later = pos 63_004_000_000_000_000_000

abbrev heap : TimeHeap
heap = now ∷ later ∷ []

heap-IsHeap : IsHeap heap
unfolding pos_part neg_part
heap-IsHeap zero p q r = absurd (omega arith)
heap-IsHeap (suc zero) p q r = omega arith
heap-IsHeap (suc (suc c)) p q r = absurd (omega arith)

allowed : IsCapacity (pos 2)
unfolding max_capacity
allowed = IsCapacity-pos 2 (omega arith)

abbrev calls : List Attempt
calls = (key, now) ∷ (key, now) ∷ (key, now) ∷ (key, later) ∷ []

calls-IsMonotone : IsMonotone now calls
unfolding pos_part neg_part
calls-IsMonotone = (omega arith, (omega arith, (omega arith, (omega arith, tt))))

heap_push_correct_example :
    Returns (λ h'. IsHeap h' × SameTimes h' (pos 5 ∷ heap)) (heap_push heap (pos 5))
heap_push_correct_example = heap_push_correct heap (pos 5) heap-IsHeap

heap_pop_correct_example : Returns (Popped heap) (heap_pop heap)
heap_pop_correct_example = heap_pop_correct heap heap-IsHeap (omega arith)

evict_correct_example : Returns (Recent later heap) (evict 3 heap later)
evict_correct_example = evict_correct 3 heap later heap-IsHeap (omega arith)

record_attempt_correct_example :
    Returns
      (Recorded (new_attempt_counter (pos 2)) key now)
      (record_attempt (new_attempt_counter (pos 2)) key now)
record_attempt_correct_example =
    record_attempt_correct (new_attempt_counter (pos 2)) key now
      (new_attempt_counter-IsValid (pos 2) allowed)

run_counter-run_log_example :
    run_counter (new_attempt_counter (pos 2)) [] calls ≡ some (run_log (pos 2) [] calls)
run_counter-run_log_example = run_counter-run_log (pos 2) now calls allowed calls-IsMonotone

run_counter-in_hour_example :
    (r : List Bool × Log) × (run_counter (new_attempt_counter (pos 2)) [] calls ≡ some r)
    × (pos (count (in_hour key later) r.1) ≤ℤ pos 2)
run_counter-in_hour_example =
    run_counter-in_hour (pos 2) now calls key later allowed calls-IsMonotone

-- The third attempt is refused, and a key is granted one again after the hour.
run_log_test : (run_log (pos 2) [] calls).0 ≡ true ∷ true ∷ false ∷ true ∷ []
unfolding run_log grants pos_part neg_part add ◌+ℤ◌ equal
run_log_test = refl
