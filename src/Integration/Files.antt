-- ===== src/Integration/Files.antt =====
-- src/integration_tests/constants.go, filesystem_helper.go and aws_helper.go: the configuration
-- files of the tests, which are kept encrypted. Files are a map from paths to contents.
pub mod Chosen
pub mod Decoded
use uptime_service_backend.Base.{
  Bool, true, false, not, ◌&&◌, Option, none, some, List, [], ◌∷◌, ◌++◌, if◌then◌else◌,
}
use uptime_service_backend.Base.Text.{Bytes, lit, is_empty, has_suffix, trim_suffix}
use uptime_service_backend.Base.Dict.{Dict, lookup, insert}
use uptime_service_backend.Config.{AppConfig}
use uptime_service_backend.Config.Env.{getenv}
use uptime_service_backend.Storage.Backends.Objects.{is_present}

abbrev pub Files : Type 0
Files = Dict Bytes

abbrev pub uptime_service_config_dir : Bytes
uptime_service_config_dir = lit "../../test/integration/topology/uptime_service_config"

abbrev pub app_config_file : Bytes
app_config_file = uptime_service_config_dir ++ lit "/app_config.json"

-- Why a helper returns an error.
pub data FileError : Type 0 where
  no_source no_target no_copy no_secret no_dir : FileError
  gpg_failed : Bytes → FileError

-- An error, if one is returned, and the files afterwards.
pub record Left : Type 0 where
  pub error : Option FileError
  pub files : Files

-- The paths at which os.Create, io.Copy and Sync fail; `partial` is what a copy that fails has
-- written.
pub record FileAccess : Type 0 where
  pub create_fails : Bytes → Bool
  pub copy_fails : Bytes → Bool
  pub partial : Bytes → Bytes
  pub sync_fails : Bytes → Bool

-- The target is created, and emptied, before the source, which is open by then, is read.
pub copy_file : FileAccess → Bytes → Bytes → Files → Left
copy_file access src dst files =
    let created = insert dst [] files in
    elim (lookup src files) [
      | none ↦ record { error = some no_source; files = files }
      | some _ ↦
          if access.create_fails dst
          then record { error = some no_target; files = files }
          else elim (lookup src created) [
            | none ↦ record { error = some no_copy; files = created }
            | some bytes ↦
                if access.copy_fails dst
                then record {
                  error = some no_copy;
                  files = insert dst (access.partial bytes) created;
                }
                else record {
                  error = if access.sync_fails dst then some no_copy else none;
                  files = insert dst bytes created;
                }
          ]
    ]

unfoldable pub conf_file : Bytes → Bytes
conf_file config_type = lit "/app_config_" ++ config_type ++ lit ".json"

pub set_app_config : FileAccess → Bytes → Files → Left
set_app_config access config_type files =
    copy_file access (uptime_service_config_dir ++ conf_file config_type) app_config_file files

-- `none` is the fatal error; `decode` is encoding/json.
pub get_app_config : (Bytes → Option AppConfig) → Files → Option AppConfig
get_app_config decode files = elim (lookup app_config_file files) [
  | none ↦ none
  | some bytes ↦ decode bytes
]

-- The names that a directory has, as paths, if they end in the suffix.
unfoldable pub filter_files : Bytes → Bytes → List Bytes → List Bytes
filter_files dir suffix [] = []
filter_files dir suffix (name ∷ names) =
    let rest = filter_files dir suffix names in
    if has_suffix name suffix then (dir ++ lit "/" ++ name) ∷ rest else rest

unfoldable pub get_dir_files : (Bytes → Option (List Bytes)) → Bytes → Bytes → Option (List Bytes)
get_dir_files read_dir dir suffix = elim (read_dir dir) [
  | none ↦ none
  | some names ↦ some (filter_files dir suffix names)
]

unfoldable pub encrypt_command : Bytes → Bytes → List Bytes
encrypt_command secret json_file =
    lit "gpg"
    ∷ lit "--pinentry-mode"
    ∷ lit "loopback"
    ∷ lit "--passphrase"
    ∷ secret
    ∷ lit "--symmetric"
    ∷ lit "--output"
    ∷ (json_file ++ lit ".gpg")
    ∷ json_file
    ∷ []

unfoldable pub decrypt_command : Bytes → Bytes → Bytes → List Bytes
decrypt_command secret json_file gpg_file =
    lit "gpg"
    ∷ lit "--pinentry-mode"
    ∷ lit "loopback"
    ∷ lit "--yes"
    ∷ lit "--passphrase"
    ∷ secret
    ∷ lit "--output"
    ∷ json_file
    ∷ lit "--decrypt"
    ∷ gpg_file
    ∷ []

-- `run` is a command, with whether it succeeds and the files afterwards; `read_dir` is os.ReadDir,
-- and `stat_fails` are the paths at which Stat has an error of its own.
module _ (run : List Bytes → Files → Bool × Files) (read_dir : Files → Bytes → Option (List Bytes))
    (stat_fails : Bytes → Bool) where
  unfoldable pub encode_all : Bytes → List Bytes → Files → Left
  encode_all secret [] files = record { error = none; files = files }
  encode_all secret (json_file ∷ more) files =
      let (good, files') = run (encrypt_command secret json_file) files in
      let rest = encode_all secret more files' in
      if good then rest else record { error = some (gpg_failed json_file); files = files' }

  -- A file that is there is not decoded again.
  unfoldable pub decode_all : Bytes → List Bytes → Files → Left
  decode_all secret [] files = record { error = none; files = files }
  decode_all secret (gpg_file ∷ more) files =
      let json_file = trim_suffix gpg_file (lit ".gpg") in
      let (good, files') = run (decrypt_command secret json_file gpg_file) files in
      let skipped = decode_all secret more files in
      let rest = decode_all secret more files' in
      if not (stat_fails json_file) && is_present json_file files
      then skipped
      else if good
      then rest
      else record { error = some (gpg_failed gpg_file); files = files' }

  -- Both take the files of the directory and the secret of the environment.
  unfoldable pub with_files :
      (Bytes → List Bytes → Files → Left) → Bytes → Dict Bytes → Files → Left
  with_files each suffix env files =
      let secret = getenv env (lit "UPTIME_SERVICE_SECRET") in
      if is_empty secret
      then record { error = some no_secret; files = files }
      else elim (get_dir_files (read_dir files) uptime_service_config_dir suffix) [
        | none ↦ record { error = some no_dir; files = files }
        | some found ↦ each secret found files
      ]

  unfoldable pub encode_uptime_service_conf : Dict Bytes → Files → Left
  encode_uptime_service_conf = with_files encode_all (lit ".json")

  unfoldable pub decode_uptime_service_conf : Dict Bytes → Files → Left
  decode_uptime_service_conf = with_files decode_all (lit ".gpg")
