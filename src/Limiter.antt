-- ===== src/Limiter.antt =====
-- src/delegation_backend/time_heap.go: the limit on the attempts of a key in an hour.
-- The clock's reading is an argument; the mutex makes a call one step. `none` is a panic.
pub mod Heap
pub mod Evict
pub mod Record
pub mod History
pub mod Window
mod Tests
use uptime_service_backend.Base.{
  ℕ, zero, suc, ◌+◌, ◌-◌, Bool, true, false, Option, none, some, List, [], ◌∷◌, if◌then◌else◌,
  length, ◌||◌,
}
use uptime_service_backend.Base.Int.{ℤ, pos, negsuc, ltb_ℤ, leb_ℤ, ◌≤ℤ◌}
use uptime_service_backend.Base.Dict.{Dict, lookup, insert}
use uptime_service_backend.Base.Panics.{◌>>=◌}
use uptime_service_backend.Clock.{Instant, Duration, hour, after, add}
use uptime_service_backend.Keys.{Pk}
use Heap.{TimeHeap, heap_push, heap_pop}
use Heap.Order.{IsHeap}

abbrev pub minus_one_hour : Duration
minus_one_hour = negsuc (hour - 1)

pub record AttemptCounter : Type 0 where
  pub attempts : Dict TimeHeap
  pub max_attempt : ℤ

unfoldable pub new_attempt_counter : ℤ → AttemptCounter
new_attempt_counter max_attempt_per_hour = record {
  attempts = [];
  max_attempt = max_attempt_per_hour;
}

-- The largest capacity that Go's `make` allows for instants on a 64-bit machine: an instant has 24
-- bytes, and a slice 2^48 bytes at most.
unfoldable pub max_capacity : ℕ
max_capacity = 11_728_124_029_610

-- `make` at this capacity does not panic.
pub record IsCapacity (max : ℤ) : Type 0 where
  pub least : pos 0 ≤ℤ max
  pub most : max ≤ℤ pos max_capacity

-- The heap of a key. For a new key `make` is called, which panics at a capacity out of range.
pub open_heap : AttemptCounter → Pk → Option TimeHeap
open_heap c pk = elim (lookup pk c.attempts) [
  | some h ↦ some h
  | none ↦
      if ltb_ℤ c.max_attempt (pos 0) || ltb_ℤ (pos max_capacity) c.max_attempt
      then none
      else some []
]

-- The test that ends the loop: the heap is empty or its root is within the last hour.
pub is_settled : TimeHeap → Instant → Bool
is_settled [] cur = true
is_settled (t ∷ h) cur = after t (add cur minus_one_hour)

-- The loop that pops what is an hour old, on fuel.
pub evict : ℕ → TimeHeap → Instant → Option TimeHeap
evict zero h cur = none
evict (suc fuel) h cur =
    let more = heap_pop h >>= λ r. evict fuel r.1 cur in if is_settled h cur then some h else more

pub store : AttemptCounter → Pk → TimeHeap → AttemptCounter
store c pk h = record c { attempts = insert pk h c.attempts }

pub record_attempt : AttemptCounter → Pk → Instant → Option (Bool × AttemptCounter)
record_attempt c pk cur = do
  h ← open_heap c pk
  recent ← evict (length h + 1) h cur
  let refuse : Option (Bool × AttemptCounter) = some (false, store c pk recent)
  let accept : Option (Bool × AttemptCounter) =
      heap_push recent cur >>= λ h'. some (true, store c pk h')
  if leb_ℤ c.max_attempt (pos (length recent)) then refuse else accept

-- What the map holds for a key; an absent key counts as an empty heap.
unfoldable pub heap_of : AttemptCounter → Pk → TimeHeap
heap_of c pk = elim (lookup pk c.attempts) [ some h ↦ h | none ↦ [] ]

pub record IsValid (c : AttemptCounter) : Type 0 where
  pub allowed : IsCapacity c.max_attempt
  pub ordered : (pk : Pk) → IsHeap (heap_of c pk)
