-- ===== src/Limiter/Evict.antt =====
-- The loop that drops the attempts that are an hour old.
use uptime_service_backend.Base.{
  ℕ, zero, suc, ◌<◌, ◌≡◌, refl, Bool, true, false, ◌&&◌, [], ◌∷◌, inl, inr, arith, Bool-cases,
  length, count,
}
use uptime_service_backend.Base.Panics.{Returns, returns, Returns-map, Returns-bind}
use uptime_service_backend.Clock.{Instant, after, add}
use uptime_service_backend.Limiter.{minus_one_hour, is_settled, evict}
use uptime_service_backend.Limiter.Heap.{TimeHeap}
use uptime_service_backend.Limiter.Heap.Order.{key, IsHeap, count-all, root_earliest}
use uptime_service_backend.Limiter.Heap.Down.{Popped, heap_pop_correct}

-- Within the hour before `cur`.
abbrev pub is_recent : Instant → Instant → Bool
is_recent cur t = after t (add cur minus_one_hour)

-- A heap of the recent instants of `h`.
abbrev pub Recent : Instant → TimeHeap → TimeHeap → Type 0
Recent cur h h' =
    IsHeap h' × ((p : Instant → Bool) → count p h' ≡ count (λ t. p t && is_recent cur t) h)

settled-Recent :
    (h : TimeHeap) (cur : Instant) → IsHeap h → is_settled h cur ≡ true → Recent cur h h
unfolding is_settled
settled-Recent [] cur v e = (v, λ p. refl)
settled-Recent (t ∷ h) cur v e = (
  v,
  λ p.
      let all =
        count-all p (is_recent cur) (t ∷ h) λ i b. ground (arith, root_earliest (t ∷ h) i v b) in
      omega (arith, all),
)

unsettled-root :
    (h : TimeHeap) (cur : Instant)
    → is_settled h cur ≡ false
    → (0 < length h) × (is_recent cur (key h 0) ≡ false)
unfolding is_settled
unsettled-root [] cur e = absurd (ground arith)
unsettled-root (t ∷ h) cur e = (omega arith, e)

Popped-Recent :
    (h h' : TimeHeap) (cur : Instant) (r : Instant × TimeHeap)
    → is_recent cur (key h 0) ≡ false
    → Popped h r
    → Recent cur r.1 h'
    → Recent cur h h'
Popped-Recent h h' cur r old s (ordered, same) = (
  ordered,
  λ p.
      let split = s.same (λ t. p t && is_recent cur t) in
      let dropped : is_recent cur r.0 ≡ false = ground (arith, s.root) in
      ground (arith, same p, split, dropped),
)

-- With fuel for each element the loop ends, and leaves exactly the recent instants.
pub evict_correct :
    (fuel : ℕ) (h : TimeHeap) (cur : Instant)
    → IsHeap h
    → length h < fuel
    → Returns (Recent cur h) (evict fuel h cur)
unfolding evict
evict_correct zero h cur v f = absurd (omega arith)
evict_correct (suc fuel) h cur v f = elim (Bool-cases (is_settled h cur)) [
  | inl done ↦ rw done (returns (settled-Recent h cur v done))
  | inr more ↦
      let (some_left, old) = unsettled-root h cur more in
      rw more (
        Returns-bind (heap_pop_correct h v some_left) λ r s.
          Returns-map (evict_correct fuel r.1 cur s.ordered (omega (arith, s.shorter)))
            λ h' recent. Popped-Recent h h' cur r old s recent)
]
