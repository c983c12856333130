-- ===== src/Integration/Runs.antt =====
-- Runs of the helpers that wait, start a database, encode the configuration and query tables.
use uptime_service_backend.Base.{
  if◌then◌else◌, ◌≡◌, refl, true, false, Bool, none, some, List, [], ◌∷◌, ◌++◌,
}
use uptime_service_backend.Base.Result.{ok, err}
use uptime_service_backend.Base.Int.{pos}
use uptime_service_backend.Base.Text.{Bytes, lit, equal, has_prefix, has_suffix, contains}
use uptime_service_backend.Base.Dict.{lookup}
use uptime_service_backend.Config.{PostgreSqlConfig}
use uptime_service_backend.Config.Env.{getenv}
use uptime_service_backend.Backoff.{Operation}
use uptime_service_backend.Storage.Backends.Databases.{Value}
use uptime_service_backend.Integration.{timeout, tick, timed_out, poll}
use uptime_service_backend.Integration.Waiting.{
  wait_until_local_storage_has_blocks_and_submissions, local_storage_has, has_name, not_found, row,
  wait_until_keyspaces_has_blocks_and_submissions, check_for_submissions,
  wait_until_postgres_has_submissions, count_submissions,
}
use uptime_service_backend.Integration.Postgres.{
  Database, start_postgres_container_and_setup_schema, container_request, conn_str,
  wait_until_ready,
}
use uptime_service_backend.Integration.Files.{
  Files, uptime_service_config_dir, gpg_failed, encode_uptime_service_conf, with_files, encode_all,
  encrypt_command, get_dir_files, filter_files,
}
use uptime_service_backend.Integration.Keyspaces.{table_query, query_tables}

abbrev postgres : PostgreSqlConfig
postgres = record {
  host = lit "db";
  port = pos 5432;
  user = lit "u";
  password = lit "p";
  db_name = lit "d";
  ssl_mode = lit "disable";
}

-- Runs in which everything is there, where something fails, and where a field is empty.
local_found :
    wait_until_local_storage_has_blocks_and_submissions (lit "2024-01-02") (
      tick (record { items = some []; blocks = none; submissions = none })
      ∷ tick (record {
        items = some (lit "blocks" ∷ lit "submissions" ∷ []);
        blocks = some (lit "h.dat" ∷ []);
        submissions = some (lit "2024-01-02T03:04:05Z-k.json" ∷ []);
      })
      ∷ [])
    ≡ some (ok tt)
unfolding wait_until_local_storage_has_blocks_and_submissions poll local_storage_has has_name
    has_suffix contains has_prefix equal
local_found = refl

keyspaces_found :
    wait_until_keyspaces_has_blocks_and_submissions true (
      tick not_found
      ∷ tick (row (lit "k") (lit "h") [])
      ∷ tick (row (lit "k") (lit "h") (lit "b"))
      ∷ [])
    ≡ some (ok tt)
unfolding wait_until_keyspaces_has_blocks_and_submissions check_for_submissions poll
keyspaces_found = refl

postgres_late :
    wait_until_postgres_has_submissions (tick (some 0) ∷ timeout ∷ []) ≡ some (err timed_out)
unfolding wait_until_postgres_has_submissions count_submissions poll
postgres_late = refl

abbrev database : Database
database = record {
  starts = λ request. equal request.image (lit "postgres");
  mapped_port = λ port. some (lit "49153");
  opens = λ text.
      equal text (lit "host=localhost port=49153 user=u password=p dbname=d sslmode=disable");
  pings = tick false ∷ tick true ∷ [];
  sets_up = true;
}

postgres_starts : start_postgres_container_and_setup_schema database postgres ≡ some (ok tt)
unfolding start_postgres_container_and_setup_schema container_request conn_str wait_until_ready poll
    equal
postgres_starts = refl

-- A gpg that fails.
abbrev run : List Bytes → Files → Bool × Files
run command files = (false, files)

encoded :
    (encode_uptime_service_conf run
      (λ files dir. some (lit "a.gpg" ∷ lit "app_config_all.json" ∷ []))
      (λ path. false)
      ((lit "UPTIME_SERVICE_SECRET", lit "s") ∷ [])
      []).error
    ≡ some (gpg_failed (uptime_service_config_dir ++ lit "/app_config_all.json"))
unfolding encode_uptime_service_conf with_files encode_all encrypt_command get_dir_files
    filter_files getenv lookup equal has_suffix
encoded = refl

-- The table `b` is missing.
abbrev exec : Bytes → List Value → Operation (List Bytes)
exec query values asked =
    if equal query (lit "SELECT * FROM k.b LIMIT 1")
    then (some (lit "unconfigured table"), query ∷ asked)
    else (none, query ∷ asked)

tables_queried : query_tables exec (lit "k") (lit "a" ∷ lit "b" ∷ lit "c" ∷ []) [] ≡ (
  some (lit "unconfigured table"),
  lit "SELECT * FROM k.b LIMIT 1" ∷ lit "SELECT * FROM k.a LIMIT 1" ∷ [],
)
unfolding query_tables table_query equal
tables_queried = refl
