-- ===== src/Storage/Backends/Session/Migrated.antt =====
-- What a migration of src/delegation_backend/aws_keyspaces.go does where nothing fails, and where
-- there is no session.
use uptime_service_backend.Base.{zero, ◌≡◌, refl, ap, Option, none, [], ◌++◌, arith}
use uptime_service_backend.Base.Int.{pos, pos_part-pos}
use uptime_service_backend.Base.Text.{Bytes, lit}
use uptime_service_backend.Base.Result.{ok}
use uptime_service_backend.Backoff.{Attempted, Error}
use uptime_service_backend.Backoff.Outcome.{exponential_backoff-succeeds}
use uptime_service_backend.Clock.{nanos_per_second}
use uptime_service_backend.Config.{AwsKeyspacesConfig}
use uptime_service_backend.Storage.Backends.Databases.{Exec}
use uptime_service_backend.Storage.Backends.Session.{
  Cluster, SessionLibraries, initialize_keyspace_session, Applied, applied, no_change, apply_failed,
  Migrate, create_schema_migrations_table, migrate_once, migration_up,
}

module _ (lib : SessionLibraries) {S : Type 0} (exec : Exec S) (lib' : Migrate S) where
  -- Up has been applied, or there was nothing to apply.
  abbrev pub IsUp : Applied → Type 0
  IsUp applied = Unit
  IsUp no_change = Unit
  IsUp (apply_failed e) = ⊥

  migrate_once-up :
      (keyspace path : Bytes) (s : S)
      → lib'.driver keyspace s ≡ none
      → lib'.source (lit "file://" ++ path) keyspace s ≡ none
      → IsUp (lib'.up s).0
      → migrate_once lib exec lib' lib'.up keyspace path s ≡ (none, (lib'.up s).1)
  unfolding migrate_once
  migrate_once-up keyspace path s driver source up = by_result (lib'.up s).0 refl up
    where
      by_result :
          (r : Applied)
          → (lib'.up s).0 ≡ r
          → IsUp r
          → migrate_once lib exec lib' lib'.up keyspace path s ≡ (none, (lib'.up s).1)
      by_result applied e u = rw (driver, migrate_once) (rw (source, migrate_once) (rw e refl))
      by_result no_change e u = rw (driver, migrate_once) (rw (source, migrate_once) (rw e refl))
      by_result (apply_failed m) e u = absurd u

  -- A migration whose session opens, whose table can be made at once, and whose library fails
  -- nowhere runs Up once, and it is no failure if there is nothing to change.
  pub migration_up-runs :
      (config : AwsKeyspacesConfig) (cluster : Cluster) (path : Bytes) (s t : S)
      → initialize_keyspace_session lib config ≡ ok cluster
      → create_schema_migrations_table lib exec lib' config.keyspace s
        ≡ record { error = none; world = t; sleeps = [] }
      → lib'.driver config.keyspace t ≡ none
      → lib'.source (lit "file://" ++ path) config.keyspace t ≡ none
      → IsUp (lib'.up t).0
      → migration_up lib exec lib' config path s ≡ (none, (lib'.up t).1)
  unfolding migration_up
  migration_up-runs config cluster path s t opened table driver source up =
      let once = migrate_once-up config.keyspace path t driver source up in
      let ran =
        exponential_backoff-succeeds (migrate_once lib exec lib' lib'.up config.keyspace path)
          (pos 10) zero (pos nanos_per_second) t (rw pos_part-pos (omega arith)) tt
          (ap (λ (r : Option Error × S). r.0) once) in
      let world = ap (λ (a : Attempted S). a.world) table in
      rw (opened, migration_up)
        (rw (table, migration_up)
          (rw world (rw ran (ap (λ (r : Option Error × S). (none, r.1)) once))))
