-- ===== src/Integration/Network/Cleaned.antt =====
-- src/integration_tests/integration_test.go: the network that was started is stopped.
use uptime_service_backend.Base.{
  ◌≡◌, refl, sym, ap, Bool, true, false, not, Option, none, some, List, [], ◌∷◌, ◌++◌, All, arith,
  inl, inr, Bool-cases,
}
use mathlib.Core.List.{append_assoc}
use uptime_service_backend.Base.Result.{Result, ok, err, ◌>>=◌}
use uptime_service_backend.Base.Text.{Bytes, lit}
use uptime_service_backend.Config.{AppConfig, AwsConfig, PostgreSqlConfig}
use uptime_service_backend.Integration.{get_aws_integration_test_folder}
use uptime_service_backend.Integration.Network.{
  Action, command, start_postgres, wait_local, empty_local, wait_s3, empty_s3, wait_postgres,
  Ending, passed, test_failed, fatal, panics, Progress, Halted, Surroundings, did, defer, perform,
  exits, perform_deferring, get_network_dir, wait_for_storage, body, run_deferred, finish, leave,
  test_integration, network_create, network_start, network_stop,
}

abbrev is_fatal : Ending → Bool
is_fatal fatal = true
is_fatal _ = false

-- The last two actions: emptying the directory, and stopping the network.
abbrev pub last_two : Bytes → Bytes → List Action
last_two network dir =
    empty_local (dir ++ lit "/uptime-storage") ∷ command (network_stop network) ∷ []

-- getS3Service opens its sessions for the folder of a bucket.
abbrev pub GetsSessions : Surroundings → AwsConfig → Bytes → Type 0
GetsSessions around aws folder =
    (around.has_session (wait_s3 aws folder) ≡ true)
    × (around.has_session (empty_s3 aws folder) ≡ true)

module _ (around : Surroundings) (network dir : Bytes) where
  run_deferred-last_two :
      (front : List Action) (ending : Ending)
      → All (λ a. exits around a ≡ false) front
      → (run_deferred around (front ++ last_two network dir) ending).0
        ≡ front ++ last_two network dir
  unfolding run_deferred exits
  run_deferred-last_two [] ending h =
      elim (Bool-cases (around.works (command (network_stop network)))) [
        | inl good ↦ rw good refl
        | inr bad ↦ rw bad refl
      ]
  run_deferred-last_two (a ∷ front) ending (stays, h) =
      rw stays (ap (◌∷◌ a) (run_deferred-last_two front ending h))

  -- What is deferred ends with the last two.
  abbrev Defers : Progress → Type 0
  Defers p =
      (front : List Action) × All (λ a. exits around a ≡ false) front
      × (p.deferred ≡ front ++ last_two network dir)

  -- No fatal end, and the last two deferred.
  abbrev Cleans : Result Halted Progress → Type 0
  Cleans (ok p) = Defers p
  Cleans (err (ending, p)) = (is_fatal ending ≡ false) × Defers p

  wait_postgres-Cleans :
      (p : Progress) → Defers p → Cleans (perform around test_failed wait_postgres p)
  unfolding perform
  wait_postgres-Cleans p d = elim (Bool-cases (around.works wait_postgres)) [
    | inl good ↦ simp (good, perform) d
    | inr bad ↦ simp (bad, perform) (refl, d)
  ]

  wait_s3-Cleans :
      (aws : AwsConfig) (folder : Bytes) (p : Progress)
      → Defers p
      → around.has_session (wait_s3 aws folder) ≡ true
      → around.has_session (empty_s3 aws folder) ≡ true
      → Cleans (
          perform_deferring around (empty_s3 aws folder) (wait_s3 aws folder) p >>= λ p2.
          perform around test_failed wait_postgres p2)
  unfolding perform_deferring exits
  wait_s3-Cleans aws folder p (front, others, eq) waits empties =
      let p' = defer (empty_s3 aws folder) (did (wait_s3 aws folder) p) in
      let d : Defers p' = (
        empty_s3 aws folder ∷ front,
        (ap not empties, others),
        ap (◌∷◌ (empty_s3 aws folder)) eq,
      ) in
      elim (Bool-cases (around.works (wait_s3 aws folder))) [
        | inl good ↦ simp (good, waits, perform_deferring) (wait_postgres-Cleans p' d)
        | inr bad ↦ simp (bad, waits, perform_deferring) (refl, d)
      ]

  any_bucket-Cleans :
      (found : Option AwsConfig) (folder : Bytes) (p : Progress)
      → Defers p
      → ((aws : AwsConfig) → found ≡ some aws → GetsSessions around aws folder)
      → Cleans (
          (elim found as (λ _. Result Halted Progress) [
            | none ↦ err (panics, p)
            | some aws ↦ perform_deferring around (empty_s3 aws folder) (wait_s3 aws folder) p
          ])
          >>= λ p2. perform around test_failed wait_postgres p2)
  any_bucket-Cleans none folder p d gets = (refl, d)
  any_bucket-Cleans (some aws) folder p d gets =
      wait_s3-Cleans aws folder p d (gets aws refl).0 (gets aws refl).1

  finish-ends :
      (p : Progress) (ending : Ending)
      → Defers p
      → (front : List Action) × ((finish around p ending).0 ≡ front ++ last_two network dir)
  finish-ends p ending (front, others, eq) = (
    p.actions ++ front,
    rw (eq, run_deferred-last_two front ending others)
        (sym (append_assoc p.actions front (last_two network dir))),
  )

  wait_for_storage-Cleans :
      (c : AppConfig) (p : Progress)
      → p.deferred ≡ command (network_stop network) ∷ []
      → ((aws : AwsConfig)
          → c.aws ≡ some aws
          → GetsSessions around aws (get_aws_integration_test_folder c))
      → Cleans (wait_for_storage around c dir p)
  unfolding wait_for_storage perform_deferring exits
  wait_for_storage-Cleans c p eq gets =
      let storage_dir = dir ++ lit "/uptime-storage" in
      let p' = defer (empty_local storage_dir) (did (wait_local storage_dir) p) in
      let d : Defers p' = ([], tt, ap (◌∷◌ (empty_local storage_dir)) eq) in
      elim (Bool-cases (around.works (wait_local storage_dir))) [
        | inl good ↦
            simp (good, perform_deferring)
              (any_bucket-Cleans c.aws (get_aws_integration_test_folder c) p' d gets)
        | inr bad ↦ simp (bad, perform_deferring) (refl, d)
      ]

  leave-ends :
      (r : Result Halted Progress)
      → Cleans r
      → (front : List Action) × ((leave around r).0 ≡ front ++ last_two network dir)
  leave-ends (ok p) d = finish-ends p passed d
  leave-ends (err (fatal, p)) (h, d) = absurd (ground arith)
  leave-ends (err (passed, p)) (h, d) = finish-ends p passed d
  leave-ends (err (test_failed, p)) (h, d) = finish-ends p test_failed d
  leave-ends (err (panics, p)) (h, d) = finish-ends p panics d

-- Once the test has started its network, and if getS3Service opens its sessions for a bucket that is
-- configured (where it does not, it ends the program without the deferred calls), then whatever
-- waiting for the storage gives, and whether or not a bucket is configured, the last two things that
-- the test does are to empty the local storage of the network and to stop the network.
pub test_integration-cleans :
    (around : Surroundings) (c : AppConfig) (postgres : PostgreSqlConfig) (dir : Bytes)
    → c.postgre_sql ≡ some postgres
    → around.works (command (network_create c.network_name)) ≡ true
    → around.works (start_postgres postgres) ≡ true
    → around.network_dir ≡ some dir
    → around.works (command (network_start c.network_name)) ≡ true
    → ((aws : AwsConfig)
        → c.aws ≡ some aws
        → GetsSessions around aws (get_aws_integration_test_folder c))
    → (front : List Action) × ((test_integration around (some c)).0
        ≡ front ++ last_two c.network_name dir)
unfolding test_integration body perform get_network_dir
test_integration-cleans around c postgres dir configured created database located started gets =
    simp (configured, created, database, located, started, perform, get_network_dir, body)
      (leave-ends around c.network_name dir (wait_for_storage around c dir _)
        (wait_for_storage-Cleans around c.network_name dir c _ refl gets))
