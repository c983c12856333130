-- ===== src/Backoff/Outcome.antt =====
use native.Mathlib.Nat.{pow-suc}
-- What a retried operation does to the world, and how long the call waits.
use uptime_service_backend.Base.{
  ℕ, zero, suc, ◌+◌, ◌-◌, ◌*◌, ◌^◌, ◌≤◌, ◌<◌, ◌≡◌, ◌≢◌, refl, Option, none, some, List, [], ◌∷◌,
  map, arith, inl, inr, Option-cases, ap,
}
use uptime_service_backend.Base.Int.{ℤ, pos, pos_part, ◌*ℤ◌, wrap64_self}
use uptime_service_backend.Clock.{Duration}
use uptime_service_backend.Backoff.{Error, Operation, double, backoff_loop, exponential_backoff}

module _ {S : Type 0} (op : Operation S) where
  -- The world after `n` calls.
  abbrev pub after_calls : ℕ → S → S
  after_calls zero s = s
  after_calls (suc n) s = after_calls n (op s).1

  -- The first `n` calls fail.
  abbrev pub Fails : ℕ → S → Type 0
  Fails zero s = Unit
  Fails (suc n) s = ((op s).0 ≢ none) × Fails n (op s).1

  -- The error of the last of `n` calls.
  abbrev pub last_error : ℕ → Option Error → S → Option Error
  last_error zero last s = last
  last_error (suc n) last s = last_error n (op s).0 (op s).1

-- The waits before the next `n` rounds.
abbrev pub doublings : ℕ → Duration → List Duration
doublings zero backoff = []
doublings (suc n) backoff = backoff ∷ doublings n (double backoff)

module _ {S : Type 0} (op : Operation S) (max : ℤ) where
  loop_succeeds :
      (left k : ℕ) (backoff : Duration) (last : Option Error) (s : S)
      → k < left
      → Fails op k s
      → (op (after_calls op k s)).0 ≡ none
      → backoff_loop op max left backoff last s
        ≡ record { error = none; world = after_calls op (suc k) s; sleeps = doublings k backoff }
  unfolding backoff_loop
  loop_succeeds zero k backoff last s b f e = absurd (omega arith)
  loop_succeeds (suc left) zero backoff last s b f e = rw (e, backoff_loop)
  loop_succeeds (suc zero) (suc k) backoff last s b f e = absurd (omega arith)
  loop_succeeds (suc (suc left)) (suc k) backoff last s b f e =
      let rest =
        loop_succeeds (suc left) k (double backoff) (op s).0 (op s).1 (omega arith) f.1 e in
      elim (Option-cases (op s).0) [
        | inl ended ↦ absurd (f.0 ended)
        | inr (error, failed) ↦ let rest' = rw failed at rest in rw (failed, backoff_loop, rest')
      ]

  loop-Fails :
      (left : ℕ) (backoff : Duration) (last : Option Error) (s : S)
      → Fails op left s
      → backoff_loop op max left backoff last s ≡ record {
        error = some (record { retries = max; last = last_error op left last s });
        world = after_calls op left s;
        sleeps = doublings (left - 1) backoff;
      }
  unfolding backoff_loop
  loop-Fails zero backoff last s f = refl
  loop-Fails (suc zero) backoff last s f = ground (arith, f.0)
  loop-Fails (suc (suc left)) backoff last s f =
      ground (arith, f.0, loop-Fails (suc left) (double backoff) (op s).0 (op s).1 f.1)

  -- `k` failures and one success in the rounds allowed.
  pub exponential_backoff-succeeds :
      (k : ℕ) (initial : Duration) (s : S)
      → k < pos_part max
      → Fails op k s
      → (op (after_calls op k s)).0 ≡ none
      → exponential_backoff op max initial s
        ≡ record { error = none; world = after_calls op (suc k) s; sleeps = doublings k initial }
  unfolding exponential_backoff
  exponential_backoff-succeeds k initial s b f e =
      loop_succeeds (pos_part max) k initial none s b f e

  -- If every round fails the operation is called once in each, the last error is reported with the
  -- count of rounds, and there is one wait fewer than rounds.
  pub exponential_backoff-Fails :
      (initial : Duration) (s : S)
      → Fails op (pos_part max) s
      → exponential_backoff op max initial s ≡ record {
        error = some (record { retries = max; last = last_error op (pos_part max) none s });
        world = after_calls op (pos_part max) s;
        sleeps = doublings (pos_part max - 1) initial;
      }
  unfolding exponential_backoff
  exponential_backoff-Fails initial s f = loop-Fails (pos_part max) initial none s f

-- The waits in exact arithmetic.
abbrev pub powers : ℕ → ℕ → List ℕ
powers zero b = []
powers (suc n) b = b ∷ powers n (2 * b)

abbrev pub sum : List ℕ → ℕ
sum [] = 0
sum (x ∷ xs) = x + sum xs

double-pos : (b : ℕ) → 2 * b < 2 ^ 63 → double (pos b) ≡ pos (2 * b)
unfolding double ◌*ℤ◌
double-pos b h =
    let exact : (pos b *ℤ pos 2) ≡ pos (2 * b) = ground arith in rw (exact, wrap64_self (2 * b) h)

pow_pos : (n : ℕ) → 1 ≤ 2 ^ n
pow_pos zero = omega arith
pow_pos (suc n) = rw pow-suc (omega (arith, pow_pos n))

-- While the last wait fits an int64 no doubling wraps, and the waits add up to
-- `initial * (2 ^ n - 1)`.
pub doublings-powers :
    (n b : ℕ)
    → b * 2 ^ n < 2 ^ 64
    → (doublings n (pos b) ≡ map pos (powers n b)) × (sum (powers n b) + b ≡ b * 2 ^ n)
doublings-powers zero b h = (refl, grind arith)
doublings-powers (suc zero) b h = (refl, omega arith)
doublings-powers (suc (suc n)) b h =
    let grown : 2 * b * 2 ^ suc n ≡ b * 2 ^ suc (suc n) = simp pow-suc (omega arith) in
    let more : 2 * b * 2 ≤ 2 * b * 2 ^ suc n = rw pow-suc (grind (arith, pow_pos n)) in
    let small : 2 * b < 2 ^ 63 = omega (arith, grown, more) in
    let (same, total) = doublings-powers (suc n) (2 * b) (omega (arith, grown)) in
    (rw (double-pos b small) (ap (◌∷◌ (pos b)) same), omega (arith, total, grown))

-- The operation is called until it first succeeds: `k` failures and one success in the rounds
-- allowed give no error, `k + 1` calls, and `k` waits of `b`, `2 b`, `4 b` and so on, in all
-- `b * (2 ^ k - 1)`, where no wait exceeds an int64.
pub exponential_backoff-powers :
    {S : Type 0} (op : Operation S) (max : ℤ) (k b : ℕ) (s : S)
    → k < pos_part max
    → b * 2 ^ k < 2 ^ 64
    → Fails op k s
    → (op (after_calls op k s)).0 ≡ none
    → (exponential_backoff op max (pos b) s
        ≡ record { error = none; world = after_calls op (suc k) s; sleeps = map pos (powers k b) })
      × (sum (powers k b) + b ≡ b * 2 ^ k)
exponential_backoff-powers op max k b s rounds small fails succeeds =
    let (same, total) = doublings-powers k b small in
    (rw (exponential_backoff-succeeds op max k (pos b) s rounds fails succeeds, same) refl, total)
