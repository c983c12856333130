-- ===== src/Integration/Setup/Ready.antt =====
-- src/integration_tests/integration_test.go: the state in which `init` leaves the tests.
use uptime_service_backend.Base.{◌≡◌, refl, Bool, false, Option, none, some, List, ◌++◌}
use uptime_service_backend.Base.Result.{ok}
use uptime_service_backend.Base.Text.{Bytes, lit, equal}
use uptime_service_backend.Base.Dict.{Dict, lookup}
use uptime_service_backend.Config.{AppConfig, AwsConfig}
use uptime_service_backend.Integration.{get_aws_bucket_name, get_aws_integration_test_folder}
use uptime_service_backend.Integration.Waiting.{any}
use uptime_service_backend.Integration.Emptying.{empty_s3_integration_test_folder}
use uptime_service_backend.Integration.Emptying.Exact.{
  left_at, empty_s3_integration_test_folder-left,
}
use uptime_service_backend.Integration.Files.{
  Files, FileAccess, uptime_service_config_dir, app_config_file, conf_file,
  decode_uptime_service_conf, set_app_config,
}
use uptime_service_backend.Integration.Files.Chosen.{set_app_config-read}
use uptime_service_backend.Integration.Files.Decoded.{WritesOutput, decode_uptime_service_conf-kept}
use uptime_service_backend.Integration.Setup.{BucketAccess, empty_folder, init}

module _ (run : List Bytes → Files → Bool × Files) (read_dir : Files → Bytes → Option (List Bytes))
    (stat_fails : Bytes → Bool) (access : FileAccess) (decode : Bytes → Option AppConfig)
    (bucket : BucketAccess) (writes : WritesOutput run) where
  -- Where gpg writes only the file that it is given as its output and decoding returns no error,
  -- the configuration of all backends is there, can be copied, and is read as one with a bucket,
  -- and the folder in the bucket is listed and every listed key can be deleted, `init` succeeds
  -- with that configuration, and has left in the bucket, of what was listed, only an object at the
  -- key of the folder, and every other object as it was.
  pub init-ready :
      (env : Dict Bytes) (files : Files) (store : Dict Bytes) (bytes : Bytes) (config : AppConfig)
      (aws : AwsConfig) (keys : List Bytes) (key : Bytes)
      → (decode_uptime_service_conf run read_dir stat_fails env files).error ≡ none
      → stat_fails (uptime_service_config_dir ++ conf_file (lit "all")) ≡ false
      → lookup (uptime_service_config_dir ++ conf_file (lit "all")) files ≡ some bytes
      → access.create_fails app_config_file ≡ false
      → access.copy_fails app_config_file ≡ false
      → access.sync_fails app_config_file ≡ false
      → decode bytes ≡ some config
      → config.aws ≡ some aws
      → bucket.list (get_aws_bucket_name aws) (get_aws_integration_test_folder config) store
        ≡ some keys
      → any (bucket.delete_fails (get_aws_bucket_name aws)) keys ≡ false
      → (files' : Files) × (store' : Dict Bytes) × (init run read_dir stat_fails access decode
            bucket env files store
          ≡ ok (config, files', store'))
        × (lookup key store' ≡ left_at (get_aws_integration_test_folder config) keys key store)
  unfolding init empty_folder equal
  init-ready env files store bytes config aws keys key decoded stats there creates copies syncs read
        has_bucket listed deletes =
      let path = uptime_service_config_dir ++ conf_file (lit "all") in
      let files1 = (decode_uptime_service_conf run read_dir stat_fails env files).files in
      let kept =
        decode_uptime_service_conf-kept run read_dir stat_fails writes env path bytes files stats
          there in
      let (_, chosen, _) =
        set_app_config-read access decode (lit "all") bytes (lit "") files1 kept creates copies
          syncs refl in
      let name = get_aws_bucket_name aws in
      let folder = get_aws_integration_test_folder config in
      let (succeeds, left) =
        empty_s3_integration_test_folder-left (bucket.delete_fails name) folder
          (bucket.list name folder) keys key store listed deletes in
      (
        (set_app_config access (lit "all") files1).files,
        (empty_s3_integration_test_folder (bucket.delete_fails name) folder
            (bucket.list name folder) store).left,
        simp (decoded, chosen, read, has_bucket, succeeds),
        left,
      )
