-- ===== src/Integration/Keyspaces/Active.antt =====
-- src/integration_tests/aws_keyspaces_helper.go: when waiting for tables succeeds.
use uptime_service_backend.Base.{ℕ, suc, ◌≡◌, ◌<◌, ap, none, List}
use uptime_service_backend.Base.Int.{pos, pos_part}
use uptime_service_backend.Base.Result.{ok}
use uptime_service_backend.Base.Text.{Bytes}
use uptime_service_backend.Clock.{nanos_per_second}
use uptime_service_backend.Backoff.{Attempted}
use uptime_service_backend.Backoff.Outcome.{after_calls, Fails, exponential_backoff-succeeds}
use uptime_service_backend.Config.{AwsKeyspacesConfig}
use uptime_service_backend.Storage.Backends.Databases.{Exec}
use uptime_service_backend.Storage.Backends.Session.{
  SessionLibraries, Cluster, initialize_keyspace_session,
}
use uptime_service_backend.Integration.Keyspaces.{query_tables, wait_for_tables_active}

-- Where a session opens, and the tables can all be queried after fewer failed rounds than there are
-- rounds, waiting for them succeeds, right after the round in which they can.
pub wait_for_tables_active-succeeds :
    {S : Type 0} (exec : Exec S) (lib : SessionLibraries) (config : AwsKeyspacesConfig)
    (cluster : Cluster) (tables : List Bytes) (k : ℕ) (s : S)
    → initialize_keyspace_session lib config ≡ ok cluster
    → k < pos_part (pos 15)
    → Fails (query_tables exec config.keyspace tables) k s
    → (query_tables exec config.keyspace tables
        (after_calls (query_tables exec config.keyspace tables) k s)).0
      ≡ none
    → wait_for_tables_active exec lib config tables s
      ≡ (none, after_calls (query_tables exec config.keyspace tables) (suc k) s)
unfolding wait_for_tables_active
wait_for_tables_active-succeeds {S} exec lib config cluster tables k s opened few fails active =
    let ran =
      exponential_backoff-succeeds (query_tables exec config.keyspace tables) (pos 15) k
        (pos nanos_per_second) s few fails active in
    rw (opened, wait_for_tables_active) (rw ran (ap (λ (a : Attempted S). (none, a.world)) ran))
