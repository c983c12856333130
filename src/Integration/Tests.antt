-- ===== src/Integration/Tests.antt =====
-- Runs of the helpers of the integration tests.
use uptime_service_backend.Base.{
  ◌≡◌, ◌∙◌, refl, true, false, Bool, Option, none, some, List, [], ◌∷◌, ◌++◌, arith, take,
}
use uptime_service_backend.Base.Result.{ok}
use uptime_service_backend.Base.Int.{pos}
use uptime_service_backend.Base.Text.{Bytes, lit, equal, has_suffix, trim_suffix}
use uptime_service_backend.Base.Dict.{Dict, lookup, insert, lookup-insert}
use uptime_service_backend.Clock.{Instant}
use uptime_service_backend.Clock.Civil.{format_utc}
use uptime_service_backend.Config.Env.{getenv}
use uptime_service_backend.Config.{AppConfig, AwsConfig, PostgreSqlConfig}
use uptime_service_backend.Paths.{FilePaths, make_paths}
use uptime_service_backend.Paths.Made.{paths_of}
use uptime_service_backend.Keys.{pk_string}
use uptime_service_backend.Samples.{libraries, key}
use uptime_service_backend.Integration.{get_aws_integration_test_folder, trim_left, trim_right}
use uptime_service_backend.Integration.Waiting.{bucket_has}
use uptime_service_backend.Integration.Waiting.Saved.{make_paths-bucket_has}
use uptime_service_backend.Integration.Emptying.Exact.{left_at}
use uptime_service_backend.Integration.Files.{
  Files, FileAccess, uptime_service_config_dir, conf_file, decode_uptime_service_conf, with_files,
  decode_all, decrypt_command, get_dir_files, filter_files,
}
use uptime_service_backend.Integration.Files.Decoded.{WritesOutput}
use uptime_service_backend.Integration.Network.{Surroundings, wait_s3, Action, test_integration}
use uptime_service_backend.Integration.Network.Cleaned.{last_two, test_integration-cleans}
use uptime_service_backend.Integration.Setup.{BucketAccess, init}
use uptime_service_backend.Integration.Setup.Ready.{init-ready}

abbrev aws : AwsConfig
aws = record {
  account_id = lit "1";
  bucket_name_suffix = lit "uptime";
  region = lit "us-west-2";
  access_key_id = [];
  secret_access_key = [];
}

abbrev postgres : PostgreSqlConfig
postgres = record {
  host = lit "db";
  port = pos 5432;
  user = lit "u";
  password = lit "p";
  db_name = lit "d";
  ssl_mode = lit "disable";
}

abbrev config : AppConfig
config = record {
  network_name = lit "net";
  gsheet_id = [];
  delegation_whitelist_list = [];
  delegation_whitelist_column = [];
  delegation_whitelist_disabled = true;
  verify_signature_disabled = true;
  aws = some aws;
  aws_keyspaces = none;
  local_file_system = none;
  postgre_sql = some postgres;
}

-- Waiting for the bucket fails, and everything else works.
abbrev works : Action → Bool
works (wait_s3 c folder) = false
works _ = true

abbrev around : Surroundings
around = record { works = works; has_session = λ action. true; network_dir = some (lit "/net") }

test_integration-cleans_example :
    (front : List Action) × ((test_integration around (some config)).0
      ≡ front ++ last_two (lit "net") (lit "/net"))
test_integration-cleans_example =
    test_integration-cleans around config postgres (lit "/net") refl refl refl refl refl
      λ found h. (refl, refl)

abbrev now : Instant
now = pos 63_000_000_000_000_000_000

abbrev paths : FilePaths
paths = paths_of libraries now (lit "h") key

made : make_paths libraries now (lit "h") key ≡ some paths
unfolding make_paths format_utc
made = refl

abbrev keys : List Bytes
keys = lit "net/" ∷ (lit "net/" ++ paths.block) ∷ (lit "net/" ++ paths.meta) ∷ []

make_paths-bucket_has_example :
    bucket_has (get_aws_integration_test_folder config) (take 10 (format_utc now)) (some keys)
    ≡ ok true
unfolding get_aws_integration_test_folder trim_left trim_right equal format_utc pk_string
make_paths-bucket_has_example =
    make_paths-bucket_has libraries config now (lit "h") key paths made keys refl refl
      (ground arith)

-- A gpg that writes the name of its input to its output.
abbrev run : List Bytes → Files → Bool × Files
run
      (gpg ∷ mode ∷ loopback ∷ overwrite ∷ passphrase ∷ secret ∷ output ∷ json_file ∷ decrypt
        ∷ gpg_file ∷ [])
      files =
    (true, insert json_file gpg_file files)
run _ files = (false, files)

writes : WritesOutput run
unfolding decrypt_command
writes secret json_file gpg_file path files other =
    lookup-insert json_file path gpg_file files ∙ rw other refl

abbrev env : Dict Bytes
env = (lit "UPTIME_SERVICE_SECRET", lit "s") ∷ []

abbrev files : Files
files =
    (uptime_service_config_dir ++ lit "/app_config_all.json", lit "all")
    ∷ (uptime_service_config_dir ++ lit "/app_config_s3.json.gpg", lit "sealed")
    ∷ []

abbrev read_dir : Files → Bytes → Option (List Bytes)
read_dir present path = some (lit "app_config_all.json" ∷ lit "app_config_s3.json.gpg" ∷ [])

abbrev access : FileAccess
access = record {
  create_fails = λ path. false;
  copy_fails = λ path. false;
  partial = λ bytes. [];
  sync_fails = λ path. false;
}

abbrev bucket : BucketAccess
bucket = record {
  list = λ name folder objects. some (lit "net/" ∷ lit "net/blocks/h.dat" ∷ []);
  delete_fails = λ name key. false;
}

abbrev stored_objects : Dict Bytes
stored_objects =
    (lit "net/", []) ∷ (lit "net/blocks/h.dat", lit "b") ∷ (lit "other/x", lit "x") ∷ []

decoded : (decode_uptime_service_conf run read_dir (λ path. false) env files).error ≡ none
unfolding decode_uptime_service_conf with_files decode_all decrypt_command get_dir_files
    filter_files getenv lookup equal has_suffix trim_suffix
decoded = refl

init-ready_example :
    (files' : Files) × (stored_objects' : Dict Bytes) × (init run read_dir
        (λ path. false)
        access
        (λ bytes. some config)
        bucket
        env
        files
        stored_objects
      ≡ ok (config, files', stored_objects'))
    × (lookup (lit "net/blocks/h.dat") stored_objects'
        ≡ left_at
            (get_aws_integration_test_folder config)
            (lit "net/" ∷ lit "net/blocks/h.dat" ∷ [])
            (lit "net/blocks/h.dat")
            stored_objects)
unfolding lookup equal conf_file
init-ready_example =
    init-ready run read_dir (λ path. false) access (λ bytes. some config) bucket writes env files
      stored_objects (lit "all") config aws (lit "net/" ∷ lit "net/blocks/h.dat" ∷ [])
      (lit "net/blocks/h.dat") decoded refl refl refl refl refl refl refl refl refl
