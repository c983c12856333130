-- ===== src/Limiter/Record.antt =====
-- RecordAttempt, on every branch.
use uptime_service_backend.Base.{
  ℕ, ◌+◌, ◌≡◌, ◌≢◌, ◌≤◌, refl, sym, ◌∙◌, Bool, true, false, ◌&&◌, ◌||◌, none, some, inl, inr, arith,
  Bool-cases, to_ℕ, if◌then◌else◌, length, count, count-true,
}
use uptime_service_backend.Base.Int.{ℤ, pos, ltb_ℤ, leb_ℤ, pos_part, neg_part}
use uptime_service_backend.Base.Text.{equal, equal_iff, equal_refl}
use uptime_service_backend.Base.Dict.{lookup, lookup-insert}
use uptime_service_backend.Base.Panics.{Returns, returns, Returns-bind}
use uptime_service_backend.Clock.{Instant}
use uptime_service_backend.Keys.{Pk}
use uptime_service_backend.Limiter.{
  AttemptCounter, open_heap, store, record_attempt, heap_of, IsValid, IsCapacity, max_capacity,
  new_attempt_counter,
}
use uptime_service_backend.Limiter.Heap.{TimeHeap}
use uptime_service_backend.Limiter.Heap.Order.{IsHeap}
use uptime_service_backend.Limiter.Heap.Up.{heap_push_correct}
use uptime_service_backend.Limiter.Evict.{is_recent, evict_correct}

pub heap_of-store :
    (c : AttemptCounter) (pk : Pk) (h : TimeHeap) (q : Pk)
    → heap_of (store c pk h) q ≡ (if equal pk q then h else heap_of c q)
unfolding heap_of store
heap_of-store c pk h q = ground (arith, lookup-insert pk q h c.attempts)

-- How many recent attempts the counter remembers for a key.
abbrev pub recent_attempts : AttemptCounter → Pk → Instant → ℕ
recent_attempts c pk cur = count (is_recent cur) (heap_of c pk)

pub IsCapacity-pos : (n : ℕ) → n ≤ max_capacity → IsCapacity (pos n)
unfolding pos_part neg_part
IsCapacity-pos n p = record { least = omega arith; most = omega (arith, p) }

-- What a call has done: `r.0` is its answer, `r.1` the counter that it leaves.
pub record Recorded (c : AttemptCounter) (pk : Pk) (cur : Instant) (r : Bool × AttemptCounter)
    : Type 0 where
  pub valid : IsValid r.1
  pub answer : r.0 ≡ ltb_ℤ (pos (recent_attempts c pk cur)) c.max_attempt
  pub held :
      (p : Instant → Bool)
      → count p (heap_of r.1 pk)
        ≡ (if r.0 then to_ℕ (p cur) else 0) + count (λ t. p t && is_recent cur t) (heap_of c pk)
  pub others : (q : Pk) → q ≢ pk → heap_of r.1 q ≡ heap_of c q
  pub limit : r.1.max_attempt ≡ c.max_attempt

open_heap_lem : (c : AttemptCounter) (pk : Pk) → IsValid c → open_heap c pk ≡ some (heap_of c pk)
unfolding open_heap heap_of
open_heap_lem c pk v = ground (arith, v.allowed.least, v.allowed.most)

store-Recorded :
    (c : AttemptCounter) (pk : Pk) (cur : Instant) (b : Bool) (h : TimeHeap)
    → IsValid c
    → IsHeap h
    → b ≡ ltb_ℤ (pos (recent_attempts c pk cur)) c.max_attempt
    → ((p : Instant → Bool)
        → count p h
          ≡ (if b then to_ℕ (p cur) else 0) + count (λ t. p t && is_recent cur t) (heap_of c pk))
    → Recorded c pk cur (b, store c pk h)
unfolding store
store-Recorded c pk cur b h v ordered answer held = record {
  valid = record {
    allowed = v.allowed;
    ordered = λ q. elim (Bool-cases (equal pk q)) [
      | inl e ↦ rw (heap_of-store c pk h q, e) ordered
      | inr e ↦ rw (heap_of-store c pk h q, e) (v.ordered q)
    ];
  };
  answer = answer;
  held = λ p. rw (heap_of-store c pk h pk, equal_refl pk) (held p);
  others = λ q ne. ground (arith, heap_of-store c pk h q, equal_iff pk q);
  limit = refl;
}

-- With a limit beyond what `make` allows, the first attempt of a key panics.
pub record_attempt-too_large :
    (max : ℤ) (pk : Pk) (cur : Instant)
    → ltb_ℤ (pos max_capacity) max ≡ true
    → record_attempt (new_attempt_counter max) pk cur ≡ none
unfolding record_attempt open_heap new_attempt_counter lookup
record_attempt-too_large max pk cur h =
    let refused : (ltb_ℤ max (pos 0) || ltb_ℤ (pos max_capacity) max) ≡ true = ground (arith, h) in
    rw refused refl

-- A call on a valid counter (one whose limit `make` allows and whose heaps are ordered) does not
-- panic, answers by the attempts of the last hour alone, keeps exactly those and the new one if
-- granted, leaves the other keys alone, and keeps the counter valid.
pub record_attempt_correct :
    (c : AttemptCounter) (pk : Pk) (cur : Instant)
    → IsValid c
    → Returns (Recorded c pk cur) (record_attempt c pk cur)
unfolding record_attempt
record_attempt_correct c pk cur v =
    let h = heap_of c pk in
    rw (open_heap_lem c pk v) (
      Returns-bind (evict_correct (length h + 1) h cur (v.ordered pk) (omega arith))
        λ recent (ordered, same).
          let size : length recent ≡ recent_attempts c pk cur =
            sym (count-true recent) ∙ same (λ _. true) in
          elim (Bool-cases (leb_ℤ c.max_attempt (pos (length recent)))) [
            | inl full ↦ rw full (
                returns (
                  store-Recorded c pk cur false recent v ordered (rw (← size) (ground arith))
                    λ p. omega (arith, same p)))
            | inr room ↦ rw room (
                Returns-bind (heap_push_correct recent cur ordered) λ h' (ordered', same').
                  returns (
                    store-Recorded c pk cur true h' v ordered' (rw (← size) (ground arith))
                      λ p. omega (arith, same p, same' p)))
          ])

-- A counter starts empty and valid, if `make` allows its limit.
pub new_attempt_counter-IsValid : (max : ℤ) → IsCapacity max → IsValid (new_attempt_counter max)
unfolding new_attempt_counter heap_of lookup
new_attempt_counter-IsValid max b = record {
  allowed = b;
  ordered = λ pk c p q r. absurd (omega arith);
}
