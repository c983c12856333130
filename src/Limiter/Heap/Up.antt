-- ===== src/Limiter/Heap/Up.antt =====
-- Push on a heap.
use native.Mathlib.Decide.{ℕ_discrete}
use uptime_service_backend.Base.{
  ℕ, zero, suc, ◌+◌, ◌-◌, ◌<◌, ◌≡◌, ◌≢◌, ◌∙◌, refl, true, false, [], ◌∷◌, ◌++◌, inl, inr, arith,
  ◌==◌, Bool-cases, length, length-append, count-append,
}
use uptime_service_backend.Base.Int.{pos, ◌≤ℤ◌}
use uptime_service_backend.Base.Panics.{Returns, returns, Returns-map}
use uptime_service_backend.Clock.{Instant, after}
use uptime_service_backend.Limiter.Heap.{TimeHeap, push, sift_up, heap_push}
use uptime_service_backend.Limiter.Heap.Array.{
  exchange, length-exchange, get_or-exchange, count-exchange, get_or-append,
}
use uptime_service_backend.Limiter.Heap.Order.{
  key, parent, IsHeap, SameTimes, less-key, swap-exchange,
}

-- Only the edge from the parent of `j` to `j` may be out of order.
record UpInv (h : TimeHeap) (j : ℕ) : Type 0 where
  inside : j < length h
  edges : (c : ℕ) → 0 < c → c < length h → c ≢ j → key h (parent c) ≤ℤ key h c
  bridged : (c : ℕ) → 0 < c → c < length h → parent c ≡ j → 0 < j → key h (parent j) ≤ℤ key h c

module _ (h : TimeHeap) (j : ℕ) (v : UpInv h j) (above : 0 < j) where
  risen-UpInv :
      after (key h (parent j)) (key h j) ≡ true → UpInv (exchange (pos 0) h (parent j) j) (parent j)
  risen-UpInv below =
      let i = parent j in
      let at = get_or-exchange (pos 0) h i j (omega arith) v.inside in
      let size = length-exchange (pos 0) h i j in
      record {
        inside = omega arith;
        edges = λ c p q r. ground (arith, v.edges c, v.bridged c, v.edges i, at c, at (parent c));
        bridged =
            λ c p q r s. ground (arith, v.edges c, v.edges i, at c, at (parent i), v.bridged c);
      }

-- The loop restores the order and keeps the instants.
sift_up_restores :
    (fuel : ℕ) (h : TimeHeap) (j : ℕ)
    → UpInv h j
    → j < fuel
    → Returns (λ h'. IsHeap h' × SameTimes h' h) (sift_up fuel h j)
unfolding sift_up
sift_up_restores zero h j v f = absurd (omega arith)
sift_up_restores (suc fuel) h zero v f = returns (λ c p q r. v.edges c p q (omega arith), λ p. refl)
sift_up_restores (suc fuel) h (suc j) v f =
    let i = parent (suc j) in
    let inside : i < length h = omega (arith, v.inside) in
    let moves : (i == suc j) ≡ false = ground arith in
    elim (Bool-cases (after (key h i) (key h (suc j)))) [
      | inl below ↦
          rw
            (
              moves,
              less-key h (suc j) i v.inside inside,
              below,
              swap-exchange h i (suc j) inside v.inside,
            )
            (Returns-map
              (sift_up_restores fuel (exchange (pos 0) h i (suc j)) i
                (risen-UpInv h (suc j) v (omega arith) below) (omega arith))
              λ h' (ordered, same).
                (ordered, λ p. same p ∙ count-exchange (pos 0) h i (suc j) inside v.inside p))
      | inr placed ↦
          rw (moves, less-key h (suc j) i v.inside inside, placed)
            (returns (
              λ c p q r. elim (ℕ_discrete c (suc j)) [
                | yes e ↦ rw e (ground arith)
                | no e ↦ v.edges c p q e
              ],
              λ p. refl,
            ))
    ]

-- Push on a heap gives a heap of the same instants and the new one.
pub heap_push_correct :
    (h : TimeHeap) (x : Instant)
    → IsHeap h
    → Returns (λ h'. IsHeap h' × SameTimes h' (x ∷ h)) (heap_push h x)
unfolding heap_push push
heap_push_correct h x v =
    Returns-map (sift_up_restores _ _ _ start (omega (arith, size)))
      λ h' (ordered, same). (ordered, λ p. omega (arith, same p, count-append p h (x ∷ [])))
  where
    size : length (h ++ x ∷ []) ≡ length h + 1
    size = length-append h (x ∷ [])

    start : UpInv (h ++ x ∷ []) (length (h ++ x ∷ []) - 1)
    start = record {
      inside = omega (arith, size);
      edges = λ c p q r.
          ground
            (arith, size, v c, get_or-append (pos 0) h x c, get_or-append (pos 0) h x (parent c));
      bridged = λ c p q r s. absurd (omega (arith, size));
    }
