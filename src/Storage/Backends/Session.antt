-- ===== src/Storage/Backends/Session.antt =====
-- src/delegation_backend/aws_keyspaces.go: opening a session of Keyspaces, and the migrations that
-- src/cmd/db_migration/main.go runs in it. gocql, the AWS SDK and the migration library are
-- parameters.
pub mod Migrated
use uptime_service_backend.Base.{
  ℕ, ◌*◌, Bool, true, false, not, ◌&&◌, Option, none, some, List, [], ◌∷◌, ◌++◌, if◌then◌else◌,
}
use uptime_service_backend.Base.Int.{ℤ, pos, is_zero}
use uptime_service_backend.Base.Text.{Bytes, lit, is_empty, equal}
use uptime_service_backend.Base.Result.{Result, ok, err, ◌>>=◌, ◌>>◌, refuse_if, or_fail}
use uptime_service_backend.Clock.{nanos_per_second}
use uptime_service_backend.Backoff.{
  Error, Operation, RetryError, Attempted, max_retries, initial_backoff, exponential_backoff,
}
use uptime_service_backend.Config.{AwsKeyspacesConfig, AppConfig}
use uptime_service_backend.Storage.Backends.Databases.{Exec}

pub record AwsAuthenticator : Type 0 where
  pub region : Bytes
  pub access_key_id : Bytes
  pub secret_access_key : Bytes
  pub session_token : Bytes

pub record Credentials : Type 0 where
  pub access_key_id : Bytes
  pub secret_access_key : Bytes
  pub session_token : Bytes

pub data Authenticator : Type 0 where
  password : Bytes → Bytes → Authenticator
  sigv4 : AwsAuthenticator → Authenticator

-- The settings of the cluster that depend on the configuration.
pub record Cluster : Type 0 where
  pub endpoint : Bytes
  pub keyspace : Bytes
  pub port : ℤ
  pub authenticator : Authenticator
  pub ca_path : Bytes

-- Why there is no session.
pub data SessionError : Type 0 where
  no_region bad_token_file bad_aws_session bad_role bad_cluster : SessionError

-- The libraries: reading a file, an AWS session in a region, assuming a role by its name, session
-- name and token, the authenticator that the environment gives, and whether a cluster is reached.
pub record SessionLibraries : Type 0 where
  pub read_file : Bytes → Option Bytes
  pub new_session : Bytes → Bool
  pub assume_role : Bytes → Bytes → Bytes → Option Credentials
  pub new_aws_authenticator : AwsAuthenticator
  pub create_session : Cluster → Bool

-- What Up or Down of the migration library comes to; `migrate.ErrNoChange` is no failure.
pub data Applied : Type 0 where
  applied : Applied
  no_change : Applied
  apply_failed : Error → Applied

-- The migration library on a database: the driver of a keyspace, the migrations of a directory,
-- and running them.
pub record Migrate (S : Type 0) : Type 0 where
  pub driver : Bytes → S → Option Error
  pub source : Bytes → Bytes → S → Option Error
  pub up : S → Applied × S
  pub down : S → Applied × S

-- Why a migration is not made.
pub data MigrationError : Type 0 where
  no_session : SessionError → MigrationError
  no_table : RetryError → MigrationError
  not_migrated : RetryError → MigrationError

-- Why the program stops: no command, no backend, an unknown command, or a failed migration.
pub data CommandError : Type 0 where
  missing_command no_keyspaces invalid_command : CommandError
  migration_failed : MigrationError → CommandError

module _ (lib : SessionLibraries) where
  pub sigv4_authentication : AwsKeyspacesConfig → Result SessionError AwsAuthenticator
  sigv4_authentication config =
      let assumed : Result SessionError AwsAuthenticator =
        (or_fail (lib.read_file config.web_identity_token_file) bad_token_file >>= λ token.
        refuse_if (not (lib.new_session config.region)) bad_aws_session
        >> or_fail (lib.assume_role config.role_arn config.role_session_name token) bad_role
        >>= λ creds. ok (record {
          region = config.region;
          access_key_id = creds.access_key_id;
          secret_access_key = creds.secret_access_key;
          session_token = creds.session_token;
        })) in
      if not (is_empty config.role_session_name)
        && (not (is_empty config.role_arn) && not (is_empty config.web_identity_token_file))
      then assumed
      else ok (record lib.new_aws_authenticator {
        region = config.region;
        access_key_id = config.access_key_id;
        secret_access_key = config.secret_access_key;
      })

  pub endpoint_of : AwsKeyspacesConfig → Result SessionError Bytes
  endpoint_of config =
      if is_empty config.cassandra_host
      then if is_empty config.region
        then err no_region
        else ok (lit "cassandra." ++ config.region ++ lit ".amazonaws.com")
      else ok config.cassandra_host

  pub authenticator_of : AwsKeyspacesConfig → Result SessionError Authenticator
  authenticator_of config =
      if not (is_empty config.cassandra_username) && not (is_empty config.cassandra_password)
      then ok (password config.cassandra_username config.cassandra_password)
      else sigv4_authentication config >>= λ auth. ok (sigv4 auth)

  -- The cluster of which a session is opened.
  pub initialize_keyspace_session : AwsKeyspacesConfig → Result SessionError Cluster
  initialize_keyspace_session config = do
    endpoint ← endpoint_of config
    authenticator ← authenticator_of config
    let cluster : Cluster = record {
      endpoint = endpoint;
      keyspace = config.keyspace;
      port = if is_zero config.cassandra_port then pos 9142 else config.cassandra_port;
      authenticator = authenticator;
      ca_path = config.ssl_certificate_path;
    }
    refuse_if (not (lib.create_session cluster)) bad_cluster
    ok cluster

  module _ {S : Type 0} (exec : Exec S) (lib' : Migrate S) where
    pub create_schema_migrations_table : Bytes → S → Attempted S
    create_schema_migrations_table keyspace =
        exponential_backoff
          (exec
            (lit "CREATE TABLE IF NOT EXISTS "
              ++ keyspace
              ++ lit ".schema_migrations (version bigint PRIMARY KEY, dirty boolean);")
            [])
          (pos 5) (pos nanos_per_second)

    -- The closure that is retried, for Up and for Down; the words that it puts before an error are
    -- left out.
    pub migrate_once : (S → Applied × S) → Bytes → Bytes → Operation S
    migrate_once run keyspace path s =
        let (result, s') = run s in
        let ran : Option Error × S = elim result [
          | applied ↦ (none, s')
          | no_change ↦ (none, s')
          | apply_failed e ↦ (some e, s')
        ] in
        elim (lib'.driver keyspace s) [
          | some e ↦ (some e, s)
          | none ↦ elim (lib'.source (lit "file://" ++ path) keyspace s) [
            | some e ↦ (some e, s)
            | none ↦ ran
          ]
        ]

    abbrev pub ended : (RetryError → MigrationError) → Attempted S → Option MigrationError × S
    ended failed a = elim a.error [ none ↦ (none, a.world) | some e ↦ (some (failed e), a.world) ]

    pub migration_up : AwsKeyspacesConfig → Bytes → S → Option MigrationError × S
    migration_up config path s = elim (initialize_keyspace_session config) [
      | err e ↦ (some (no_session e), s)
      | ok _ ↦
          let table = create_schema_migrations_table config.keyspace s in
          let migrated =
            exponential_backoff (migrate_once lib'.up config.keyspace path) (pos 10)
              (pos nanos_per_second) table.world in
          elim table.error [
            | some e ↦ (some (no_table e), table.world)
            | none ↦ ended not_migrated migrated
          ]
    ]

    pub migration_down : AwsKeyspacesConfig → Bytes → S → Option MigrationError × S
    migration_down config path s = elim (initialize_keyspace_session config) [
      | err e ↦ (some (no_session e), s)
      | ok _ ↦ ended not_migrated (
          exponential_backoff (migrate_once lib'.down config.keyspace path) max_retries
            initial_backoff s)
    ]

    abbrev pub report : Option MigrationError × S → Option CommandError × S
    report (none, s) = (none, s)
    report (some e, s) = (some (migration_failed e), s)

    -- main of db_migration, with the arguments after the program's name.
    pub db_migration : AppConfig → List Bytes → Bytes → S → Option CommandError × S
    db_migration config [] path s = (some missing_command, s)
    db_migration config (command ∷ args) path s = elim config.aws_keyspaces [
      | none ↦ (some no_keyspaces, s)
      | some keyspaces ↦
          if equal command (lit "up")
          then report (migration_up keyspaces path s)
          else if equal command (lit "down")
          then report (migration_down keyspaces path s)
          else (some invalid_command, s)
    ]
