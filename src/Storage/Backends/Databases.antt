-- ===== src/Storage/Backends/Databases.antt =====
-- src/delegation_backend/aws_keyspaces.go and postgres.go: the rows that a submission becomes.
-- The database is a parameter: a statement with its values acts on a state, and may fail.
use uptime_service_backend.Base.{
  ℕ, ◌≡◌, ◌≤◌, refl, Option, none, some, List, [], ◌∷◌, ◌++◌, ltb, arith, length, if◌then◌else◌,
  Bool-cases, inl, inr, some_of_ne_none,
}
use uptime_service_backend.Base.Int.{ℤ, pos}
use uptime_service_backend.Base.Text.{Bytes, lit, equal, is_empty}
use uptime_service_backend.Clock.{Instant}
use uptime_service_backend.Paths.{ObjectsToSave}
use uptime_service_backend.Backoff.{
  Operation, Attempted, max_retries, initial_backoff, exponential_backoff,
}
use uptime_service_backend.Backoff.Invariant.{exponential_backoff-keeps}
use uptime_service_backend.Storage.{
  Submission, Readers, Prepared, prepared, no_valid_submission, object_to_save_to_submission,
}
use uptime_service_backend.Storage.Shard.{calculate_shard}

-- A value bound to a statement; a nil slice of bytes is no blob.
pub data Value : Type 0 where
  text : Bytes → Value
  number : ℤ → Value
  timestamp : Instant → Value
  blob : Option Bytes → Value

abbrev pub Exec : Type 0 → Type 0
Exec S = Bytes → List Value → Operation S

abbrev pub max_block_size : ℕ
max_block_size = 1_000_000

abbrev keyspaces_columns : Bytes
keyspaces_columns =
    lit
      ".submissions (submitted_at_date, shard, submitted_at, submitter, remote_addr, peer_id, snark_work, block_hash, created_at, graphql_control_port, built_with_commit_sha"

-- The values of the columns but the last, the raw block.
pub keyspaces_values : Submission → List Value
keyspaces_values s =
    text s.submitted_at_date
    ∷ number (pos (calculate_shard s.submitted_at))
    ∷ timestamp s.submitted_at
    ∷ text s.submitter
    ∷ text s.remote_addr
    ∷ text s.peer_id
    ∷ blob s.snark_work
    ∷ text s.block_hash
    ∷ timestamp s.created_at
    ∷ number s.graphql_control_port
    ∷ text s.built_with_commit_sha
    ∷ []

-- What a save of the objects ends in; all but the first are only logged.
pub data Report : Type 0 where
  saved : Report
  not_prepared : Report
  already_exists : Report
  not_saved : Report

abbrev duplicate_key : Bytes
duplicate_key =
    lit "pq: duplicate key value violates unique constraint \"uq_submissions_submitter_date\""

module _ {S : Type 0} (exec : Exec S) where
  pub insert_without_raw_block : Bytes → Submission → Operation S
  insert_without_raw_block keyspace s =
      exec
        (lit "INSERT INTO "
          ++ keyspace
          ++ keyspaces_columns
          ++ lit ") VALUES (?, ?, ?, ?, ?, ?, ?, ?, ?, ?, ?)")
        (keyspaces_values s)

  pub insert_with_raw_block : Bytes → Submission → Operation S
  insert_with_raw_block keyspace s =
      exec
        (lit "INSERT INTO "
          ++ keyspace
          ++ keyspaces_columns
          ++ lit ", raw_block) VALUES (?, ?, ?, ?, ?, ?, ?, ?, ?, ?, ?, ?)")
        (keyspaces_values s ++ blob s.raw_block ∷ [])

  -- The round for a submission with that raw block.
  insert_block : Bytes → Submission → Option Bytes → Operation S
  insert_block keyspace s none = insert_without_raw_block keyspace s
  insert_block keyspace s (some raw) =
      if ltb max_block_size (length raw)
      then insert_without_raw_block keyspace s
      else insert_with_raw_block keyspace s

  -- One round of KeyspaceContext.insertSubmission.
  pub insert_once : Bytes → Submission → Operation S
  unfolding insert_block
  insert_once keyspace s = insert_block keyspace s s.raw_block

  pub keyspaces_insert : Bytes → Submission → S → Attempted S
  keyspaces_insert keyspace s =
      exponential_backoff (insert_once keyspace s) max_retries initial_backoff

  -- `none` is a panic, in reading the objects back.
  pub keyspace_save : Readers → Bytes → ObjectsToSave → S → Option (Report × S)
  keyspace_save readers keyspace objs world = elim (object_to_save_to_submission readers objs) [
    | none ↦ none
    | some no_valid_submission ↦ some (not_prepared, world)
    | some (prepared s) ↦
        let done = keyspaces_insert keyspace s world in
        some (elim done.error [ none ↦ saved | some _ ↦ not_saved ], done.world)
  ]

  pub postgresql_values : Submission → List Value
  postgresql_values s =
      text s.submitted_at_date
      ∷ timestamp s.submitted_at
      ∷ text s.submitter
      ∷ timestamp s.created_at
      ∷ text s.block_hash
      ∷ text s.remote_addr
      ∷ text s.peer_id
      ∷ number s.graphql_control_port
      ∷ text s.built_with_commit_sha
      ∷ []

  -- PostgreSQLContext.insertSubmission; the white space of the statements is left out.
  pub postgresql_insert : Submission → Operation S
  postgresql_insert s =
      let columns =
        lit
          "INSERT INTO submissions (submitted_at_date, submitted_at, submitter, created_at, block_hash, remote_addr, peer_id, graphql_control_port, built_with_commit_sha" in
      let without = exec (columns ++ lit ") VALUES ($1, $2, $3, $4, $5, $6, $7, $8, $9)") in
      let with_snark_work =
        exec (columns ++ lit ", snark_work) VALUES ($1, $2, $3, $4, $5, $6, $7, $8, $9, $10)") in
      elim s.snark_work [
        | none ↦ without (postgresql_values s)
        | some work ↦
            if is_empty work
            then without (postgresql_values s)
            else with_snark_work (postgresql_values s ++ blob (some work) ∷ [])
      ]

  pub postgresql_save : Readers → ObjectsToSave → S → Option (Report × S)
  postgresql_save readers objs world = elim (object_to_save_to_submission readers objs) [
    | none ↦ none
    | some no_valid_submission ↦ some (not_prepared, world)
    | some (prepared s) ↦
        let (error, world') = postgresql_insert s world in
        let report : Report = elim error [
          | none ↦ saved
          | some e ↦ if equal e duplicate_key then already_exists else not_saved
        ] in
        some (report, world')
  ]

  module _ (readers : Readers) (objs : ObjectsToSave) (world : S) where
    -- A save returns where the objects can be read back.
    pub keyspace_save-returns :
        (keyspace : Bytes) (p : Prepared)
        → object_to_save_to_submission readers objs ≡ some p
        → (r : Report × S) × (keyspace_save readers keyspace objs world ≡ some r)
    unfolding keyspace_save
    keyspace_save-returns keyspace no_valid_submission read =
        some_of_ne_none (keyspace_save readers keyspace objs world)
          λ failed. let failed' = rw (read, keyspace_save) at failed in cc
    keyspace_save-returns keyspace (prepared s) read =
        some_of_ne_none (keyspace_save readers keyspace objs world)
          λ failed. let failed' = rw (read, keyspace_save) at failed in cc

    pub postgresql_save-returns :
        (p : Prepared)
        → object_to_save_to_submission readers objs ≡ some p
        → (r : Report × S) × (postgresql_save readers objs world ≡ some r)
    unfolding postgresql_save
    postgresql_save-returns no_valid_submission read =
        some_of_ne_none (postgresql_save readers objs world)
          λ failed. let failed' = rw (read, postgresql_save) at failed in cc
    postgresql_save-returns (prepared s) read =
        some_of_ne_none (postgresql_save readers objs world)
          λ failed. let failed' = rw (read, postgresql_save) at failed in cc

  -- No blob after the eleven columns is longer than a block may be.
  pub data SmallBlock : List Value → Type 0 where
    no_block : (s : Submission) → SmallBlock (keyspaces_values s)
    small :
        (s : Submission) (raw : Bytes)
        → s.raw_block ≡ some raw
        → length raw ≤ max_block_size
        → SmallBlock (keyspaces_values s ++ blob s.raw_block ∷ [])

  module _ {P : S → Type 0} where
    insert_block-keeps :
        ((query : Bytes) (values : List Value)
          → SmallBlock values
          → (s : S) → P s
          → P (exec query values s).1)
        → (keyspace : Bytes) (x : Submission) (raw : Option Bytes) → x.raw_block ≡ raw
        → (s : S) → P s
        → P (insert_block keyspace x raw s).1
    unfolding insert_block insert_without_raw_block insert_with_raw_block
    insert_block-keeps keep keyspace x none h s p = keep _ _ (no_block x) s p
    insert_block-keeps keep keyspace x (some raw) h s p =
        elim (Bool-cases (ltb max_block_size (length raw))) [
          | inl big ↦ rw big (keep _ _ (no_block x) s p)
          | inr fits ↦ rw fits (keep _ _ (small x raw h (ground (arith, fits))) s p)
        ]

    -- KeyspaceSave keeps whatever holds of the database and is kept by statements whose raw block,
    -- if they have one, has at most 1,000,000 bytes: it never sends a larger one.
    pub keyspaces_insert-SmallBlock :
        ((query : Bytes) (values : List Value)
          → SmallBlock values
          → (s : S) → P s
          → P (exec query values s).1)
        → (keyspace : Bytes) (x : Submission) (s : S) → P s
        → P (keyspaces_insert keyspace x s).world
    unfolding keyspaces_insert insert_once
    keyspaces_insert-SmallBlock keep keyspace x s p =
        exponential_backoff-keeps (insert_once keyspace x)
          (insert_block-keeps keep keyspace x x.raw_block refl) max_retries initial_backoff s p
