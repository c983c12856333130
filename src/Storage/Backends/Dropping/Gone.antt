-- ===== src/Storage/Backends/Dropping/Gone.antt =====
-- src/delegation_backend/aws_keyspaces.go: DropAllTables leaves no table.
use uptime_service_backend.Base.{zero, ◌≡◌, refl, ap, ◌∙◌, Option, none, List, [], ◌∷◌, arith}
use uptime_service_backend.Base.Int.{pos_part-pos}
use uptime_service_backend.Base.Result.{ok}
use uptime_service_backend.Base.Text.{Bytes}
use uptime_service_backend.Backoff.{Error, max_retries, initial_backoff}
use uptime_service_backend.Backoff.Outcome.{exponential_backoff-succeeds}
use uptime_service_backend.Config.{AwsKeyspacesConfig}
use uptime_service_backend.Storage.Backends.Databases.{Exec}
use uptime_service_backend.Storage.Backends.Session.{
  SessionError, SessionLibraries, Cluster, initialize_keyspace_session,
}
use uptime_service_backend.Storage.Backends.Dropping.{
  drop_query, tables_query, drop_tables, drop_once, drop_all_tables,
}

-- The first table of a keyspace can be dropped, which leaves the others.
abbrev pub Drops : {S : Type 0} → Exec S → (S → List Bytes) → Bytes → Type 0
Drops {S} exec tables keyspace =
    (s : S) (table_name : Bytes) (more : List Bytes)
    → tables s ≡ table_name ∷ more
    → ((exec (drop_query keyspace table_name) [] s).0 ≡ none)
      × (tables (exec (drop_query keyspace table_name) [] s).1 ≡ more)

module _ (lib : SessionLibraries) (text : SessionError → Error) {S : Type 0} (exec : Exec S)
    (names : Bytes → S → List Bytes × Option Error) (tables : S → List Bytes) where
  drop_tables-gone :
      (keyspace : Bytes) (found : List Bytes) (s : S)
      → Drops exec tables keyspace
      → tables s ≡ found
      → ((drop_tables lib text exec names keyspace none found s).0 ≡ none)
        × (tables (drop_tables lib text exec names keyspace none found s).1 ≡ [])
  unfolding drop_tables
  drop_tables-gone keyspace [] s drops e = (refl, e)
  drop_tables-gone keyspace (table_name ∷ more) s drops e =
      let (dropped, left) = drops s table_name more e in
      rw (dropped, drop_tables)
        (drop_tables-gone keyspace more (exec (drop_query keyspace table_name) [] s).1 drops left)

  -- Where a session opens, the query for the tables of its keyspace gives those that there are, and
  -- each can be dropped, DropAllTables succeeds in its first round and leaves no table.
  pub drop_all_tables-gone :
      (config : AwsKeyspacesConfig) (cluster : Cluster) (s : S)
      → initialize_keyspace_session lib config ≡ ok cluster
      → names (tables_query config.keyspace) s ≡ (tables s, none)
      → Drops exec tables config.keyspace
      → ((drop_all_tables lib text exec names config s).error ≡ none)
        × ((drop_all_tables lib text exec names config s).sleeps ≡ [])
        × (tables (drop_all_tables lib text exec names config s).world ≡ [])
  unfolding drop_all_tables drop_once
  drop_all_tables-gone config cluster s opened found drops =
      let (dropped, left) = drop_tables-gone config.keyspace (tables s) s drops refl in
      let once : drop_once lib text exec names config s
          ≡ drop_tables lib text exec names config.keyspace none (tables s) s =
        simp (opened, found, drop_once) in
      let ran =
        exponential_backoff-succeeds (drop_once lib text exec names config) max_retries zero
          initial_backoff s (rw pos_part-pos (omega arith)) tt
          (ap (λ (r : Option Error × S). r.0) once ∙ dropped) in
      rw ran (refl, refl, ap (λ (r : Option Error × S). tables r.1) once ∙ left)
