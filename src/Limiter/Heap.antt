-- ===== src/Limiter/Heap.antt =====
-- src/delegation_backend/time_heap.go: `timeHeap`, and the functions of Go's container/heap that
-- run over it. `none` is a run-time panic (an index out of range) or a loop out of fuel.
pub mod Array
pub mod Order
pub mod Up
pub mod Down
use uptime_service_backend.Base.{
  ℕ, zero, suc, ◌+◌, ◌-◌, ◌*◌, ◌/◌, Bool, Option, none, some, List, [], ◌∷◌, ◌++◌, ltb, leb, ◌==◌,
  if◌then◌else◌, length, get_elem?, set, take,
}
use uptime_service_backend.Base.Panics.{◌>>=◌}
use uptime_service_backend.Clock.{Instant, after}

abbrev pub TimeHeap : Type 0
TimeHeap = List Instant

pub less : TimeHeap → ℕ → ℕ → Option Bool
less h i j = do t ← get_elem? h j; u ← get_elem? h i; some (after t u)

pub swap : TimeHeap → ℕ → ℕ → Option TimeHeap
swap h i j = do t ← get_elem? h j; u ← get_elem? h i; some (set (set h i t) j u)

pub push : TimeHeap → Instant → TimeHeap
push h x = h ++ x ∷ []

-- The last element, and the others.
pub pop : TimeHeap → Option (Instant × TimeHeap)
pop h = do x ← get_elem? h (length h - 1); some (x, take (length h - 1) h)

-- container/heap `up`.
pub sift_up : ℕ → TimeHeap → ℕ → Option TimeHeap
sift_up zero h j = none
sift_up (suc fuel) h j =
    let i = (j - 1) / 2 in
    let rise = swap h i j >>= λ h'. sift_up fuel h' i in
    let step = less h j i >>= λ below. if below then rise else some h in
    if i == j then some h else step

-- The child that container/heap `down` compares with its parent.
pub smaller_child : TimeHeap → ℕ → ℕ → Option ℕ
smaller_child h i n =
    let left = 2 * i + 1 in
    let choose = less h (left + 1) left >>= λ below. some (if below then left + 1 else left) in
    if ltb (left + 1) n then choose else some left

-- container/heap `down`, on the first `n` elements.
pub sift_down : ℕ → TimeHeap → ℕ → ℕ → Option TimeHeap
sift_down zero h i n = none
sift_down (suc fuel) h i n =
    let step : Option TimeHeap = do
      j ← smaller_child h i n
      below ← less h j i
      let sink = swap h i j >>= λ h'. sift_down fuel h' j n
      if below then sink else some h
    in if leb n (2 * i + 1) then some h else step

-- container/heap `Push`.
pub heap_push : TimeHeap → Instant → Option TimeHeap
heap_push h x = let h' = push h x in sift_up (length h') h' (length h' - 1)

-- container/heap `Pop`.
pub heap_pop : TimeHeap → Option (Instant × TimeHeap)
heap_pop h = do let n = length h - 1; h' ← swap h 0 n; h'' ← sift_down (n + 1) h' 0 n; pop h''
