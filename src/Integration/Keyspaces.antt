-- ===== src/Integration/Keyspaces.antt =====
-- src/integration_tests/aws_keyspaces_helper.go: waiting until tables can be queried.
pub mod Active
use uptime_service_backend.Base.{Option, none, some, List, [], ◌∷◌, ◌++◌}
use uptime_service_backend.Base.Int.{pos}
use uptime_service_backend.Base.Result.{ok, err}
use uptime_service_backend.Base.Text.{Bytes, lit}
use uptime_service_backend.Clock.{nanos_per_second}
use uptime_service_backend.Backoff.{Operation, RetryError, exponential_backoff}
use uptime_service_backend.Config.{AwsKeyspacesConfig}
use uptime_service_backend.Storage.Backends.Databases.{Exec}
use uptime_service_backend.Storage.Backends.Session.{
  SessionError, SessionLibraries, initialize_keyspace_session,
}

-- Why the tables are not active.
pub data TablesError : Type 0 where
  no_session : SessionError → TablesError
  not_active : RetryError → TablesError

unfoldable pub table_query : Bytes → Bytes → Bytes
table_query keyspace table_name =
    lit "SELECT * FROM " ++ keyspace ++ lit "." ++ table_name ++ lit " LIMIT 1"

module _ {S : Type 0} (exec : Exec S) where
  -- One round: a query of each table, up to the first that fails.
  unfoldable pub query_tables : Bytes → List Bytes → Operation S
  query_tables keyspace [] s = (none, s)
  query_tables keyspace (table_name ∷ tables) s =
      let (error, s') = exec (table_query keyspace table_name) [] s in
      let rest = query_tables keyspace tables s' in
      elim error [ none ↦ rest | some e ↦ (some e, s') ]

  pub wait_for_tables_active :
      SessionLibraries → AwsKeyspacesConfig → List Bytes → S → Option TablesError × S
  wait_for_tables_active lib config tables s =
      let waited =
        exponential_backoff (query_tables config.keyspace tables) (pos 15) (pos nanos_per_second)
          s in
      elim (initialize_keyspace_session lib config) [
        | err e ↦ (some (no_session e), s)
        | ok _ ↦ elim waited.error [
          | none ↦ (none, waited.world)
          | some e ↦ (some (not_active e), waited.world)
        ]
      ]
