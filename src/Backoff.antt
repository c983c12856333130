-- ===== src/Backoff.antt =====
-- src/delegation_backend/operation.go: retries with exponential backoff.
-- An operation acts on a state of the world, which is a parameter, and may fail.
pub mod Invariant
pub mod Outcome
mod Tests
use uptime_service_backend.Base.{
  ℕ, zero, suc, Bool, Option, none, some, List, [], ◌∷◌, if◌then◌else◌,
}
use uptime_service_backend.Base.Int.{ℤ, pos, pos_part, wrap64, ◌*ℤ◌}
use uptime_service_backend.Base.Text.{Bytes}
use uptime_service_backend.Clock.{Duration, nanos_per_second}
use Prim.Native.Nat.{◌*◌}

-- The text of a Go error.
abbrev pub Error : Type 0
Error = Bytes

abbrev pub Operation : Type 0 → Type 0
Operation S = S → Option Error × S

abbrev pub max_retries : ℤ
max_retries = pos 3

abbrev pub initial_backoff : Duration
initial_backoff = pos 300_000_000

-- "operation failed after %d retries, returned error: %s"; with no round there is no last error.
pub record RetryError : Type 0 where
  pub retries : ℤ
  pub last : Option Error

-- How a call ends: the error returned, the world, and the waits in between.
pub record Attempted (S : Type 0) : Type 0 where
  pub error : Option RetryError
  pub world : S
  pub sleeps : List Duration

-- `backoff *= 2` on an int64.
pub double : Duration → Duration
double backoff = wrap64 (backoff *ℤ pos 2)

-- The loop with `left` rounds to go.
pub backoff_loop : {S : Type 0} → Operation S → ℤ → ℕ → Duration → Option Error → S → Attempted S
backoff_loop op max zero backoff last s = record {
  error = some (record { retries = max; last = last });
  world = s;
  sleeps = [];
}
backoff_loop op max (suc left) backoff last s =
    let (error, s') = op s in
    let retry_last = backoff_loop op max left backoff error s' in
    let waited = backoff_loop op max left (double backoff) error s' in
    let retry = record waited { sleeps = backoff ∷ waited.sleeps } in
    elim error [
      | none ↦ record { error = none; world = s'; sleeps = [] }
      | some _ ↦ elim left [ zero ↦ retry_last | suc _ ↦ retry ]
    ]

-- A negative count of retries makes no round, as zero does.
pub exponential_backoff : {S : Type 0} → Operation S → ℤ → Duration → S → Attempted S
exponential_backoff op max initial s = backoff_loop op max (pos_part max) initial none s
