-- ===== src/Limiter/Heap/Down.antt =====
-- Pop on a heap.
use native.Mathlib.Decide.{ℕ_discrete}
use uptime_service_backend.Base.{
  ℕ, zero, suc, ◌-◌, ◌*◌, ◌≤◌, ◌<◌, ◌≡◌, ◌≢◌, ◌∙◌, refl, true, ◌∷◌, inl, inr, ◌⊎◌, ◌+◌, arith,
  Bool-cases, length, ltb, leb,
}
use uptime_service_backend.Base.Int.{pos, ◌≤ℤ◌}
use uptime_service_backend.Base.Panics.{Returns, returns, Returns-map, Returns-bind}
use uptime_service_backend.Clock.{Instant, after}
use uptime_service_backend.Limiter.Heap.{TimeHeap, pop, smaller_child, sift_down, heap_pop}
use uptime_service_backend.Limiter.Heap.Array.{
  exchange, length-exchange, get_or-exchange, count-exchange, get_elem?-get_or, count-take_last,
  get_or-take, length-take_init,
}
use uptime_service_backend.Limiter.Heap.Order.{
  key, parent, IsHeap, IsHeapIn, SameTimes, less-key, swap-exchange,
}

-- Among the first `n` elements only the edges from `i` to its children may be out of order.
record DownInv (h : TimeHeap) (i n : ℕ) : Type 0 where
  inside : n ≤ length h
  edges : (c : ℕ) → 0 < c → c < n → parent c ≢ i → key h (parent c) ≤ℤ key h c
  bridged : (c : ℕ) → 0 < c → c < n → parent c ≡ i → 0 < i → key h (parent i) ≤ℤ key h c

-- What `down` compares with: the child of `i` that is no later than the other.
abbrev IsSmallerChild : TimeHeap → ℕ → ℕ → ℕ → Type 0
IsSmallerChild h i n j =
    (0 < j)
    × (j < n)
    × (parent j ≡ i)
    × ((c : ℕ) → 0 < c → c < n → parent c ≡ i → key h j ≤ℤ key h c)

child_cases : (c i : ℕ) → 0 < c → parent c ≡ i → (c ≡ 2 * i + 1) ⊎ (c ≡ 2 * i + 1 + 1)
child_cases c i p e = ground arith

IsSmallerChild-intro :
    (h : TimeHeap) (i n j : ℕ)
    → (j ≡ 2 * i + 1) ⊎ (j ≡ 2 * i + 1 + 1)
    → j < n
    → key h j ≤ℤ key h (2 * i + 1)
    → (2 * i + 1 + 1 < n → key h j ≤ℤ key h (2 * i + 1 + 1))
    → IsSmallerChild h i n j
IsSmallerChild-intro h i n j place b left right = (
  omega arith,
  b,
  omega arith,
  λ c p q r. elim (child_cases c i p r) [ inl e ↦ rw e left | inr e ↦ rw e (right (omega arith)) ],
)

smaller_child_lem :
    (h : TimeHeap) (i n : ℕ)
    → n ≤ length h
    → 2 * i + 1 < n
    → Returns (IsSmallerChild h i n) (smaller_child h i n)
unfolding smaller_child
smaller_child_lem h i n b p =
    let left = 2 * i + 1 in
    elim (Bool-cases (ltb (left + 1) n)) [
      | inl two ↦
          let both : left + 1 < n = ground arith in
          rw (two, less-key h (left + 1) left (omega arith) (omega arith))
            (elim (Bool-cases (after (key h left) (key h (left + 1)))) [
              | inl right ↦ rw right (
                  returns (
                    IsSmallerChild-intro h i n (left + 1) (inr refl) both (ground arith)
                      (λ _. omega arith)))
              | inr stay ↦ rw stay (
                  returns (
                    IsSmallerChild-intro h i n left (inl refl) p (omega arith) (λ _. ground arith)))
            ])
      | inr one ↦ rw one (
          returns (
            IsSmallerChild-intro h i n left (inl refl) p (omega arith)
              (λ q. absurd (ground arith))))
    ]

-- Restored: ordered among the first `n`, the rest of the array as it was, the same instants.
record Sunk (h : TimeHeap) (n : ℕ) (h' : TimeHeap) : Type 0 where
  ordered : IsHeapIn 0 n h'
  same : SameTimes h' h
  size : length h' ≡ length h
  kept : (c : ℕ) → n ≤ c → key h' c ≡ key h c

module _ (h : TimeHeap) (i n j : ℕ) (v : DownInv h i n) (child : IsSmallerChild h i n j) where
  sunk-DownInv : after (key h i) (key h j) ≡ true → DownInv (exchange (pos 0) h i j) j n
  sunk-DownInv below =
      let at = get_or-exchange (pos 0) h i j (omega (arith, v.inside)) (omega (arith, v.inside)) in
      let size = length-exchange (pos 0) h i j in
      record {
        inside = omega (arith, v.inside);
        edges = λ c p q r. ground (arith, v.edges c, v.bridged j, child.3 c, at c, at (parent c));
        bridged = λ c p q r s. ground (arith, v.edges c, at c, at (parent j));
      }

sift_down_restores :
    (fuel : ℕ) (h : TimeHeap) (i n : ℕ)
    → DownInv h i n
    → n < fuel + i
    → 0 < fuel
    → Returns (Sunk h n) (sift_down fuel h i n)
unfolding sift_down
sift_down_restores zero h i n v f g = absurd (omega arith)
sift_down_restores (suc fuel) h i n v f g = elim (Bool-cases (leb n (2 * i + 1))) [
  | inl leaf ↦ rw leaf (
      returns (record {
        ordered = λ c p q r. v.edges c p q (ground arith);
        same = λ p. refl;
        size = refl;
        kept = λ c p. refl;
      }))
  | inr more ↦ rw more (
      Returns-bind (smaller_child_lem h i n v.inside (ground arith)) λ j child.
        let (positive, below_n, up, least) = child in
        rw (less-key h j i (omega (arith, v.inside)) (omega (arith, v.inside)))
          (elim (Bool-cases (after (key h i) (key h j))) [
            | inl sinks ↦
                rw (sinks, swap-exchange h i j (omega (arith, v.inside)) (omega (arith, v.inside)))
                  (Returns-map
                    (sift_down_restores fuel (exchange (pos 0) h i j) j n
                      (sunk-DownInv h i n j v child sinks) (omega arith) (omega arith))
                    λ h' s. record {
                      ordered = s.ordered;
                      same = λ p.
                          s.same p
                          ∙ count-exchange (pos 0) h i j (omega (arith, v.inside))
                              (omega (arith, v.inside)) p;
                      size = s.size ∙ length-exchange (pos 0) h i j;
                      kept = λ c b. ground (
                        arith,
                        s.kept c b,
                        v.inside,
                        get_or-exchange (pos 0) h i j (omega (arith, v.inside))
                            (omega (arith, v.inside)) c,
                      );
                    })
            | inr stays ↦ rw stays (
                returns (record {
                  ordered = λ c p q r. elim (ℕ_discrete (parent c) i) [
                    | yes e ↦ rw e (ground (arith, least c p q e))
                    | no e ↦ v.edges c p q e
                  ];
                  same = λ p. refl;
                  size = refl;
                  kept = λ c b. refl;
                }))
          ]))
]

-- What Pop returns: the earliest instant, and a heap of the others.
pub record Popped (h : TimeHeap) (r : Instant × TimeHeap) : Type 0 where
  pub root : r.0 ≡ key h 0
  pub ordered : IsHeap r.1
  pub same : SameTimes h (r.0 ∷ r.1)
  pub shorter : length h ≡ suc (length r.1)

pop_lem :
    (h k : TimeHeap) (n : ℕ)
    → length h ≡ suc n
    → Sunk (exchange (pos 0) h 0 n) n k
    → Returns (Popped h) (pop k)
unfolding pop
pop_lem h k n size s =
    let inside : n < length h = omega arith in
    let length_k : length k ≡ suc n = omega (arith, s.size, length-exchange (pos 0) h 0 n) in
    let last : length k - 1 ≡ n = omega arith in
    let init = length-take_init (pos 0) k n (omega arith) in
    let root : key k n ≡ key h 0 =
      ground (arith, s.kept n, get_or-exchange (pos 0) h 0 n (omega arith) inside n) in
    rw (last, get_elem?-get_or (pos 0) k n (omega arith))
      (returns (record {
        root = root;
        ordered = λ c p q r. ground (
          arith,
          s.ordered c,
          init,
          get_or-take (pos 0) k n c,
          get_or-take (pos 0) k n (parent c),
        );
        same = λ p. omega (
          arith,
          s.same p,
          count-exchange (pos 0) h 0 n (omega arith) inside p,
          count-take_last (pos 0) p k n length_k,
        );
        shorter = omega arith;
      }))

-- Pop on a heap that is not empty returns its earliest instant and leaves a heap of the others.
pub heap_pop_correct : (h : TimeHeap) → IsHeap h → 0 < length h → Returns (Popped h) (heap_pop h)
unfolding heap_pop
heap_pop_correct h v b =
    let n = length h - 1 in
    let size : length h ≡ suc n = omega arith in
    let at = get_or-exchange (pos 0) h 0 n b (omega arith) in
    rw (swap-exchange h 0 n b (omega arith)) (
      Returns-bind
        (sift_down_restores (n + 1) (exchange (pos 0) h 0 n) 0 n
          (record {
            inside = omega (arith, length-exchange (pos 0) h 0 n);
            edges = λ c p q r. ground (arith, v c, at c, at (parent c));
            bridged = λ c p q r s. absurd (omega arith);
          })
          (omega arith) (omega arith))
        λ k s. pop_lem h k n size s)
