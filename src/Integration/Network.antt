-- ===== src/Integration/Network.antt =====
-- src/integration_tests/minimina_helper.go and integration_test.go: the commands that drive the
-- network of block producers, and the test as the actions that it takes in order.
pub mod Cleaned
use uptime_service_backend.Base.{
  Bool, true, false, not, Option, none, some, List, [], ◌∷◌, ◌++◌, if◌then◌else◌,
}
use uptime_service_backend.Base.Result.{Result, ok, err, ◌>>=◌}
use uptime_service_backend.Base.Text.{Bytes, lit}
use uptime_service_backend.Config.{AppConfig, AwsConfig, PostgreSqlConfig}
use uptime_service_backend.Integration.{get_aws_integration_test_folder}

abbrev test_data_folder : Bytes
test_data_folder = lit "../../test/integration"

abbrev pub genesis_file : Bytes
genesis_file = test_data_folder ++ lit "/topology/genesis_ledger.json"

abbrev pub topology_file : Bytes
topology_file = test_data_folder ++ lit "/topology/topology.json"

abbrev pub network_create : Bytes → List Bytes
network_create network =
    lit "minimina"
    ∷ lit "network"
    ∷ lit "create"
    ∷ lit "-n"
    ∷ network
    ∷ lit "-g"
    ∷ genesis_file
    ∷ lit "-t"
    ∷ topology_file
    ∷ []

abbrev pub network_start : Bytes → List Bytes
network_start network = lit "minimina" ∷ lit "network" ∷ lit "start" ∷ lit "-n" ∷ network ∷ []

abbrev pub network_stop : Bytes → List Bytes
network_stop network = lit "minimina" ∷ lit "network" ∷ lit "stop" ∷ lit "-n" ∷ network ∷ []

abbrev pub network_delete : Bytes → List Bytes
network_delete network = lit "minimina" ∷ lit "network" ∷ lit "delete" ∷ lit "-n" ∷ network ∷ []

abbrev pub network_status : Bytes → List Bytes
network_status network = lit "minimina" ∷ lit "network" ∷ lit "status" ∷ lit "-n" ∷ network ∷ []

abbrev pub node_stop : Bytes → Bytes → List Bytes
node_stop network node =
    lit "minimina" ∷ lit "node" ∷ lit "stop" ∷ lit "-n" ∷ network ∷ lit "-i" ∷ node ∷ []

abbrev pub node_start : Bytes → Bytes → List Bytes
node_start network node =
    lit "minimina" ∷ lit "node" ∷ lit "start" ∷ lit "-n" ∷ network ∷ lit "-i" ∷ node ∷ []

-- What the test does to its surroundings.
pub data Action : Type 0 where
  set_config : Bytes → Action
  command : List Bytes → Action
  start_postgres : PostgreSqlConfig → Action
  wait_local empty_local : Bytes → Action
  wait_s3 empty_s3 : AwsConfig → Bytes → Action
  wait_postgres : Action

-- How the test ends: `log.Fatalf` leaves the program at once, the others run what is deferred.
pub data Ending : Type 0 where
  passed test_failed fatal panics : Ending

-- What has been done, and what is deferred, the last first.
pub record Progress : Type 0 where
  pub actions : List Action
  pub deferred : List Action

abbrev pub Halted : Type 0
Halted = Ending × Progress

-- Whether an action succeeds, and the directory of the network as the output of its status gives
-- it, where that can be read as JSON; `none` is fatal. `has_session` is whether getS3Service opens
-- the session with which an action on the bucket starts.
pub record Surroundings : Type 0 where
  pub works : Action → Bool
  pub has_session : Action → Bool
  pub network_dir : Option Bytes

abbrev pub did : Action → Progress → Progress
did action p = record p { actions = p.actions ++ action ∷ [] }

abbrev pub defer : Action → Progress → Progress
defer action p = record p { deferred = action ∷ p.deferred }

module _ (around : Surroundings) where
  -- The actions that leave the program from within, by `log.Fatalf`: a command that fails, and an
  -- action on the bucket that gets no session.
  pub exits : Action → Bool
  exits (command c) = not (around.works (command c))
  exits (wait_s3 aws folder) = not (around.has_session (wait_s3 aws folder))
  exits (empty_s3 aws folder) = not (around.has_session (empty_s3 aws folder))
  exits _ = false

  -- An action that ends the test if it fails.
  pub perform : Ending → Action → Progress → Result Halted Progress
  perform ending action p =
      let p' = did action p in if around.works action then ok p' else err (ending, p')

  -- An action whose clean-up is deferred before its error is looked at.
  pub perform_deferring : Action → Action → Progress → Result Halted Progress
  perform_deferring clean_up action p =
      let p' = defer clean_up (did action p) in
      if exits action
      then err (fatal, did action p)
      else if around.works action
      then ok p'
      else err (test_failed, p')

  pub get_network_dir : Bytes → Progress → Result Halted (Bytes × Progress)
  get_network_dir network p =
      let p' = did (command (network_status network)) p in
      elim around.network_dir [ none ↦ err (fatal, p') | some dir ↦ ok (dir, p') ]

  -- What comes after the network has started.
  pub wait_for_storage : AppConfig → Bytes → Progress → Result Halted Progress
  wait_for_storage config dir p = do
    let storage_dir = dir ++ lit "/uptime-storage"
    let folder = get_aws_integration_test_folder config
    p1 ← perform_deferring (empty_local storage_dir) (wait_local storage_dir) p
    p2 ← elim config.aws [
      | none ↦ err (panics, p1)
      | some aws ↦ perform_deferring (empty_s3 aws folder) (wait_s3 aws folder) p1
    ]
    perform test_failed wait_postgres p2

  -- TestIntegration_BP_Uptime_Storage up to its deferred calls. The error of setAppConfig is
  -- ignored, and a configuration that cannot be read is fatal.
  pub body : Option AppConfig → Result Halted Progress
  body config = do
    let p0 : Progress = record { actions = set_config (lit "all") ∷ []; deferred = [] }
    c ← elim config [ none ↦ err (fatal, p0) | some c ↦ ok c ]
    p1 ← perform fatal (command (network_create c.network_name)) p0
    p2 ← elim c.postgre_sql [
      | none ↦ err (panics, p1)
      | some postgres ↦ perform fatal (start_postgres postgres) p1
    ]
    found ← get_network_dir c.network_name p2
    p3 ← perform fatal (command (network_start c.network_name)) found.1
    wait_for_storage c found.0 (defer (command (network_stop c.network_name)) p3)

  -- The deferred calls. One that exits skips what is left; the errors of the others are ignored.
  pub run_deferred : List Action → Ending → List Action × Ending
  run_deferred [] ending = ([], ending)
  run_deferred (action ∷ more) ending =
      let (actions, ending') = run_deferred more ending in
      if exits action then (action ∷ [], fatal) else (action ∷ actions, ending')

  abbrev pub finish : Progress → Ending → List Action × Ending
  finish p ending =
      let (actions, ending') = run_deferred p.deferred ending in (p.actions ++ actions, ending')

  -- The end of the test, by how its body ends.
  abbrev pub leave : Result Halted Progress → List Action × Ending
  leave (ok p) = finish p passed
  leave (err (fatal, p)) = (p.actions, fatal)
  leave (err (ending, p)) = finish p ending

  pub test_integration : Option AppConfig → List Action × Ending
  test_integration config = leave (body config)
