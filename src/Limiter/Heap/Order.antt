-- ===== src/Limiter/Heap/Order.antt =====
-- The heap order on instants, and heaps that hold the same instants.
use uptime_service_backend.Base.{
  ℕ, zero, suc, ◌-◌, ◌/◌, ◌≤◌, ◌<◌, ◌≡◌, Bool, true, some, [], ◌∷◌, arith, length, get_or, count,
  ◌&&◌,
}
use uptime_service_backend.Base.Int.{pos, ◌≤ℤ◌}
use uptime_service_backend.Clock.{Instant, after}
use uptime_service_backend.Limiter.Heap.{TimeHeap, less, swap}
use uptime_service_backend.Limiter.Heap.Array.{get_elem?-get_or, exchange}

abbrev pub key : TimeHeap → ℕ → Instant
key h i = get_or h i (pos 0)

abbrev pub parent : ℕ → ℕ
parent c = (c - 1) / 2

-- Among the first `n` elements, from the index `lo` on, no child is earlier than its parent.
abbrev pub IsHeapIn : ℕ → ℕ → TimeHeap → Type 0
IsHeapIn lo n h = (c : ℕ) → 0 < c → c < n → lo ≤ parent c → key h (parent c) ≤ℤ key h c

abbrev pub IsHeap : TimeHeap → Type 0
IsHeap h = IsHeapIn 0 (length h) h

-- Every test passes for as many instants of the one as of the other: equality as multisets.
abbrev pub SameTimes : TimeHeap → TimeHeap → Type 0
SameTimes h k = (p : Instant → Bool) → count p h ≡ count p k

pub less-key :
    (h : TimeHeap) (i j : ℕ)
    → i < length h
    → j < length h
    → less h i j ≡ some (after (key h j) (key h i))
unfolding less
less-key h i j hi hj = rw (get_elem?-get_or (pos 0) h j hj, get_elem?-get_or (pos 0) h i hi)

pub swap-exchange :
    (h : TimeHeap) (i j : ℕ)
    → i < length h
    → j < length h
    → swap h i j ≡ some (exchange (pos 0) h i j)
unfolding swap exchange
swap-exchange h i j hi hj = rw (get_elem?-get_or (pos 0) h j hj, get_elem?-get_or (pos 0) h i hi)

-- By induction on a bound for the index.
root_earliest_below :
    (k : ℕ) (h : TimeHeap) (i : ℕ) → IsHeap h → i < k → i < length h → key h 0 ≤ℤ key h i
root_earliest_below zero h i v b p = absurd (omega arith)
root_earliest_below (suc k) h zero v b p = omega arith
root_earliest_below (suc k) h (suc i) v b p =
    omega (arith, v (suc i), root_earliest_below k h (parent (suc i)) v)

-- The root of a heap is its earliest instant.
pub root_earliest : (h : TimeHeap) (i : ℕ) → IsHeap h → i < length h → key h 0 ≤ℤ key h i
root_earliest h i v p = root_earliest_below (suc i) h i v (omega arith) p

-- A test that holds at every index holds of all that is counted.
pub count-all :
    (p q : Instant → Bool) (h : TimeHeap)
    → ((i : ℕ) → i < length h → q (key h i) ≡ true)
    → count (λ t. p t && q t) h ≡ count p h
count-all p q [] all = omega arith
count-all p q (t ∷ h) all =
    ground (arith, all 0, count-all p q h (λ i b. all (suc i) (omega arith)))
