-- ===== src/Backoff/Invariant.antt =====
-- src/delegation_backend/operation.go: what each round of an operation keeps, all of them keep.
use uptime_service_backend.Base.{ℕ, zero, suc, Option, none, inl, inr, Option-cases}
use uptime_service_backend.Base.Int.{ℤ, pos_part}
use uptime_service_backend.Clock.{Duration}
use uptime_service_backend.Backoff.{Error, Operation, double, backoff_loop, exponential_backoff}

module _ {S : Type 0} {P : S → Type 0} (op : Operation S) (keep : (s : S) → P s → P (op s).1) where
  backoff_loop-keeps :
      (max : ℤ) (left : ℕ) (backoff : Duration) (last : Option Error) (s : S)
      → P s
      → P (backoff_loop op max left backoff last s).world
  unfolding backoff_loop
  backoff_loop-keeps max zero backoff last s p = p
  backoff_loop-keeps max (suc zero) backoff last s p = elim (Option-cases (op s).0) [
    | inl h ↦ rw (h, backoff_loop) (keep s p)
    | inr (e, h) ↦ rw (h, backoff_loop) (keep s p)
  ]
  backoff_loop-keeps max (suc (suc left)) backoff last s p = elim (Option-cases (op s).0) [
    | inl h ↦ rw (h, backoff_loop) (keep s p)
    | inr (e, h) ↦
        rw (h, backoff_loop)
          (backoff_loop-keeps max (suc left) (double backoff) (op s).0 (op s).1 (keep s p))
  ]

  pub exponential_backoff-keeps :
      (max : ℤ) (initial : Duration) (s : S) → P s → P (exponential_backoff op max initial s).world
  unfolding exponential_backoff
  exponential_backoff-keeps max initial s p = backoff_loop-keeps max (pos_part max) initial none s p
