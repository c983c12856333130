-- ===== src/Integration/Postgres.antt =====
-- src/integration_tests/postgres_helper.go: starting the database of the tests.
use uptime_service_backend.Base.{Bool, not, Option, none, some, List, [], ◌∷◌, ◌++◌, if◌then◌else◌}
use uptime_service_backend.Base.Result.{Result, ok, err}
use uptime_service_backend.Base.Text.{Bytes, lit}
use uptime_service_backend.Base.Decimal.{itoa}
use uptime_service_backend.Config.{PostgreSqlConfig}
use uptime_service_backend.Integration.{Event, WaitError, failed, poll}

-- The container that is asked for.
pub record ContainerRequest : Type 0 where
  pub image : Bytes
  pub name : Bytes
  pub exposed_ports : List Bytes
  pub env : List (Bytes × Bytes)
  pub listening_port : Bytes
  pub network_mode : Bytes

unfoldable pub container_request : PostgreSqlConfig → ContainerRequest
container_request config = record {
  image = lit "postgres";
  name = lit "postgres_integration";
  exposed_ports = (itoa config.port ++ lit "/tcp") ∷ [];
  env =
      (lit "POSTGRES_DB", config.db_name)
      ∷ (lit "POSTGRES_USER", config.user)
      ∷ (lit "POSTGRES_PASSWORD", config.password)
      ∷ [];
  listening_port = lit "5432/tcp";
  network_mode = lit "integration-test_default";
}

unfoldable pub conn_str : PostgreSqlConfig → Bytes → Bytes
conn_str config port =
    lit "host=localhost port="
    ++ port
    ++ lit " user="
    ++ config.user
    ++ lit " password="
    ++ config.password
    ++ lit " dbname="
    ++ config.db_name
    ++ lit " sslmode=disable"

-- Whether the container starts, the port that it is given, whether the database is opened and what
-- the loop of pings receives, and whether the schema is set up.
pub record Database : Type 0 where
  pub starts : ContainerRequest → Bool
  pub mapped_port : Bytes → Option Bytes
  pub opens : Bytes → Bool
  pub pings : List (Event Bool)
  pub sets_up : Bool

-- The loop that goes on until Ping succeeds.
unfoldable pub wait_until_ready : List (Event Bool) → Option (Result WaitError (Unit {0}))
wait_until_ready = poll ok

-- `none` while it still waits for the database.
unfoldable pub start_postgres_container_and_setup_schema :
    Database → PostgreSqlConfig → Option (Result WaitError (Unit {0}))
start_postgres_container_and_setup_schema db config =
    if not (db.starts (container_request config))
    then some (err failed)
    else elim (db.mapped_port (lit "5432")) [
      | none ↦ some (err failed)
      | some port ↦
          if not (db.opens (conn_str config port))
          then some (err failed)
          else elim (wait_until_ready db.pings) [
            | none ↦ none
            | some (err e) ↦ some (err e)
            | some (ok _) ↦ if db.sets_up then some (ok tt) else some (err failed)
          ]
    ]
