-- ===== src/Backoff/Tests.antt =====
-- Runs of an operation on a countdown, which fails until it is at zero.
use uptime_service_backend.Base.{
  ℕ, zero, suc, ◌<◌, ◌≡◌, refl, none, some, arith, map, ◌+◌, ◌*◌, ◌^◌,
}
use uptime_service_backend.Base.Int.{pos, pos_part}
use uptime_service_backend.Base.Text.{lit}
use uptime_service_backend.Backoff.{Operation, max_retries, initial_backoff, exponential_backoff}
use uptime_service_backend.Backoff.Outcome.{powers, sum, exponential_backoff-powers}

abbrev countdown : Operation ℕ
countdown zero = (none, zero)
countdown (suc n) = (some (lit "not yet"), n)

within : 2 < pos_part max_retries
unfolding pos_part
within = omega arith

exponential_backoff-powers_example :
    (exponential_backoff countdown max_retries initial_backoff 2
      ≡ record { error = none; world = 0; sleeps = map pos (powers 2 300_000_000) })
    × (sum (powers 2 300_000_000) + 300_000_000 ≡ 300_000_000 * 2 ^ 2)
exponential_backoff-powers_example =
    exponential_backoff-powers countdown max_retries 2 300_000_000 2 within (omega arith)
      (λ h. cc, (λ h. cc, tt)) refl
