-- ===== src/Integration/Setup.antt =====
-- src/integration_tests/integration_test.go: what `init` does before the test.
pub mod Ready
use uptime_service_backend.Base.{
  Bool, true, false, Option, none, some, List, [], ◌∷◌, ◌++◌, if◌then◌else◌,
}
use uptime_service_backend.Base.Result.{Result, ok, err, ◌>>=◌, or_fail}
use uptime_service_backend.Base.Text.{Bytes, lit}
use uptime_service_backend.Base.Dict.{Dict}
use uptime_service_backend.Config.{AppConfig, AwsConfig}
use uptime_service_backend.Integration.{get_aws_bucket_name, get_aws_integration_test_folder}
use uptime_service_backend.Integration.Emptying.{Emptied, empty_s3_integration_test_folder}
use uptime_service_backend.Integration.Files.{
  Files, FileError, Left, FileAccess, decode_uptime_service_conf, set_app_config, get_app_config,
}

-- Why the tests do not start: files that are not decoded, a configuration that is not read or has
-- no bucket, which is a panic, and a folder that is not emptied.
pub data SetupError : Type 0 where
  not_decoded : FileError → SetupError
  no_config no_bucket not_emptied : SetupError

-- A listing of a bucket below a prefix, and the keys at which a deletion in a bucket fails.
pub record BucketAccess : Type 0 where
  pub list : Bytes → Bytes → Dict Bytes → Option (List Bytes)
  pub delete_fails : Bytes → Bytes → Bool

module _ (run : List Bytes → Files → Bool × Files) (read_dir : Files → Bytes → Option (List Bytes))
    (stat_fails : Bytes → Bool) (access : FileAccess) (decode : Bytes → Option AppConfig)
    (bucket : BucketAccess) where
  empty_folder : AppConfig → AwsConfig → Dict Bytes → Emptied (Dict Bytes)
  empty_folder config aws store =
      let name = get_aws_bucket_name aws in
      let folder = get_aws_integration_test_folder config in
      empty_s3_integration_test_folder (bucket.delete_fails name) folder (bucket.list name folder)
        store

  abbrev ended : Option FileError → Result SetupError (Unit {0})
  ended none = ok tt
  ended (some e) = err (not_decoded e)

  abbrev emptied :
      AppConfig → Files → Emptied (Dict Bytes) → Result SetupError (AppConfig × Files × Dict Bytes)
  emptied config files r = if r.fails then err not_emptied else ok (config, files, r.left)

  -- The error of setAppConfig is ignored.
  pub init : Dict Bytes → Files → Dict Bytes → Result SetupError (AppConfig × Files × Dict Bytes)
  init env files store =
      let decoded = decode_uptime_service_conf run read_dir stat_fails env files in
      let chosen = set_app_config access (lit "all") decoded.files in
      ended decoded.error >>= λ _.
      or_fail (get_app_config decode chosen.files) no_config >>= λ config.
      or_fail config.aws no_bucket >>= λ aws.
      emptied config chosen.files (empty_folder config aws store)
