-- ===== src/Integration/Files/Chosen.antt =====
-- src/integration_tests/constants.go: the configuration that is set is the one that is read.
use uptime_service_backend.Base.{◌≡◌, refl, ◌∙◌, false, Option, none, some, [], ◌++◌}
use uptime_service_backend.Base.Text.{Bytes, equal, equal_refl}
use uptime_service_backend.Base.Dict.{lookup, insert, lookup-insert}
use uptime_service_backend.Config.{AppConfig}
use uptime_service_backend.Integration.Files.{
  Files, FileAccess, uptime_service_config_dir, app_config_file, conf_file, copy_file,
  set_app_config, get_app_config,
}

-- A copy to another path, where nothing fails.
copy_file-copied :
    (access : FileAccess) (src dst bytes : Bytes) (files : Files)
    → lookup src files ≡ some bytes
    → equal dst src ≡ false
    → access.create_fails dst ≡ false
    → access.copy_fails dst ≡ false
    → access.sync_fails dst ≡ false
    → copy_file access src dst files
      ≡ record { error = none; files = insert dst bytes (insert dst [] files) }
unfolding copy_file
copy_file-copied access src dst bytes files found other creates copies syncs =
    let kept : lookup src (insert dst [] files) ≡ some bytes =
      lookup-insert dst src [] files ∙ rw other found in
    simp (copy_file, found, creates, kept, copies, syncs)

app_config_file-differs :
    (config_type : Bytes)
    → equal app_config_file (uptime_service_config_dir ++ conf_file config_type) ≡ false
unfolding equal conf_file
app_config_file-differs config_type = refl

-- Where the configuration of a type is there, and copying it does not fail, it is set without an
-- error, the tests then read what is decoded of it, and every other file has the contents that it
-- had.
pub set_app_config-read :
    (access : FileAccess) (decode : Bytes → Option AppConfig) (config_type bytes path : Bytes)
    (files : Files)
    → lookup (uptime_service_config_dir ++ conf_file config_type) files ≡ some bytes
    → access.create_fails app_config_file ≡ false
    → access.copy_fails app_config_file ≡ false
    → access.sync_fails app_config_file ≡ false
    → equal app_config_file path ≡ false
    → ((set_app_config access config_type files).error ≡ none)
      × (get_app_config decode (set_app_config access config_type files).files ≡ decode bytes)
      × (lookup path (set_app_config access config_type files).files ≡ lookup path files)
unfolding set_app_config get_app_config
set_app_config-read access decode config_type bytes path files found creates copies syncs
      elsewhere =
    let copied =
      copy_file-copied access (uptime_service_config_dir ++ conf_file config_type) app_config_file
        bytes files found (app_config_file-differs config_type) creates copies syncs in
    let read : lookup app_config_file
          (insert app_config_file bytes (insert app_config_file [] files))
        ≡ some bytes =
      lookup-insert app_config_file app_config_file bytes (insert app_config_file [] files)
      ∙ rw (equal_refl app_config_file) refl in
    let kept : lookup path (insert app_config_file bytes (insert app_config_file [] files))
        ≡ lookup path files =
      lookup-insert app_config_file path bytes (insert app_config_file [] files)
      ∙ rw (elsewhere, lookup-insert app_config_file path [] files) (rw elsewhere refl) in
    rw copied (refl, rw (read, get_app_config) refl, kept)
