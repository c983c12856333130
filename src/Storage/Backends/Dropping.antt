-- ===== src/Storage/Backends/Dropping.antt =====
-- src/delegation_backend/aws_keyspaces.go: dropping the tables of a keyspace.
pub mod Gone
use uptime_service_backend.Base.{Option, none, some, List, [], ◌∷◌, ◌++◌}
use uptime_service_backend.Base.Result.{Result, ok, err}
use uptime_service_backend.Base.Text.{Bytes, lit}
use uptime_service_backend.Backoff.{
  Error, Operation, Attempted, max_retries, initial_backoff, exponential_backoff,
}
use uptime_service_backend.Config.{AwsKeyspacesConfig}
use uptime_service_backend.Storage.Backends.Databases.{Exec}
use uptime_service_backend.Storage.Backends.Session.{
  SessionError, SessionLibraries, initialize_keyspace_session,
}

pub drop_query : Bytes → Bytes → Bytes
drop_query keyspace table_name = lit "DROP TABLE " ++ keyspace ++ lit "." ++ table_name ++ lit ";"

pub tables_query : Bytes → Bytes
tables_query keyspace =
    lit "SELECT table_name FROM system_schema.tables WHERE keyspace_name = '"
    ++ keyspace
    ++ lit "';"

-- `names` is what a query iterates over, with the error of closing the iterator; `text` is the
-- error of a session that is not opened.
module _ (lib : SessionLibraries) (text : SessionError → Error) {S : Type 0} (exec : Exec S)
    (names : Bytes → S → List Bytes × Option Error) where
  -- The loop over the names, which ends at the first table that is not dropped; then the iterator
  -- is closed.
  pub drop_tables : Bytes → Option Error → List Bytes → Operation S
  drop_tables keyspace closing [] s = (closing, s)
  drop_tables keyspace closing (table_name ∷ more) s =
      let (error, s') = exec (drop_query keyspace table_name) [] s in
      let rest = drop_tables keyspace closing more s' in
      elim error [ none ↦ rest | some e ↦ (some e, s') ]

  pub drop_once : AwsKeyspacesConfig → Operation S
  drop_once config s =
      let (found, closing) = names (tables_query config.keyspace) s in
      elim (initialize_keyspace_session lib config) [
        | err e ↦ (some (text e), s)
        | ok _ ↦ drop_tables config.keyspace closing found s
      ]

  pub drop_all_tables : AwsKeyspacesConfig → S → Attempted S
  drop_all_tables config = exponential_backoff (drop_once config) max_retries initial_backoff
