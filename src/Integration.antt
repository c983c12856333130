-- ===== src/Integration.antt =====
-- src/integration_tests: the helpers of the integration tests, which wait for what the backend
-- stores, empty what it has stored, handle the encrypted configuration and drive the network.
pub mod Waiting
pub mod Emptying
pub mod Files
pub mod Postgres
pub mod Network
pub mod Keyspaces
pub mod Setup
mod Tests
mod Runs
use uptime_service_backend.Base.{
  ℕ, Bool, true, false, Option, none, some, List, [], ◌∷◌, ◌++◌, ◌==◌, if◌then◌else◌,
}
use uptime_service_backend.Base.Text.{Bytes, lit}
use uptime_service_backend.Config.{AwsConfig, AppConfig}
use uptime_service_backend.Base.Result.{Result, ok, err}

-- What `select` receives: the timeout, or a tick with what can be observed then.
pub data Event {ℓ} (A : Type ℓ) : Type ℓ where
  timeout : Event A
  tick : A → Event A

pub data WaitError : Type 0 where
  timed_out : WaitError
  failed : WaitError

-- The loop of the functions that wait: a tick ends it when the check says so or fails. `none` is a
-- loop that still waits after the events.
unfoldable pub poll {ℓ} :
    {A : Type ℓ}
    → (A → Result WaitError Bool)
    → List (Event A)
    → Option (Result WaitError (Unit {0}))
poll check [] = none
poll check (timeout ∷ events) = some (err timed_out)
poll check (tick a ∷ events) = elim (check a) [
  | err e ↦ some (err e)
  | ok true ↦ some (ok tt)
  | ok false ↦ poll check events
]

-- `strings.Trim s "/"`, from the left and from the right.
pub trim_left : ℕ → Bytes → Bytes
trim_left c [] = []
trim_left c (x ∷ s) = let rest = trim_left c s in if x == c then rest else x ∷ s

pub trim_right : ℕ → Bytes → Bytes
trim_right c [] = []
trim_right c (x ∷ s) = elim (trim_right c s) [
  | [] ↦ if x == c then [] else x ∷ []
  | y ∷ rest ↦ x ∷ y ∷ rest
]

pub get_aws_bucket_name : AwsConfig → Bytes
get_aws_bucket_name aws = aws.account_id ++ lit "-" ++ aws.bucket_name_suffix

pub get_aws_integration_test_folder : AppConfig → Bytes
get_aws_integration_test_folder config =
    trim_right b'/' (trim_left b'/' config.network_name) ++ lit "/"
