-- ===== src/Integration/Files/Decoded.antt =====
-- src/integration_tests/constants.go: decoding the configuration changes no file that is there.
use uptime_service_backend.Base.{
  ◌≡◌, ◌∙◌, Bool, true, false, not, ◌&&◌, Option, some, List, [], ◌∷◌, arith, inl, inr, Bool-cases,
  Option-cases,
}
use uptime_service_backend.Base.Text.{Bytes, lit, equal, equal→eq, is_empty, trim_suffix}
use uptime_service_backend.Base.Dict.{Dict, lookup}
use uptime_service_backend.Config.Env.{getenv}
use uptime_service_backend.Storage.Backends.Objects.{is_present}
use uptime_service_backend.Integration.Files.{
  Files, decrypt_command, decode_all, with_files, decode_uptime_service_conf, get_dir_files,
  uptime_service_config_dir,
}

-- gpg writes no other file than the one that it is given as its output.
abbrev pub WritesOutput : (List Bytes → Files → Bool × Files) → Type 0
WritesOutput run =
    (secret json_file gpg_file path : Bytes) (files : Files)
    → equal json_file path ≡ false
    → lookup path (run (decrypt_command secret json_file gpg_file) files).1 ≡ lookup path files

module _ (run : List Bytes → Files → Bool × Files) (read_dir : Files → Bytes → Option (List Bytes))
    (stat_fails : Bytes → Bool) (writes : WritesOutput run) where
  output_differs :
      (json_file path bytes : Bytes) (files : Files)
      → stat_fails path ≡ false
      → lookup path files ≡ some bytes
      → (not (stat_fails json_file) && is_present json_file files) ≡ false
      → equal json_file path ≡ false
  output_differs json_file path bytes files stats there missing =
      elim (Bool-cases (equal json_file path)) [
        | inl same ↦
            (let eq : json_file ≡ path = equal→eq json_file path same in
              let found : (not (stat_fails json_file) && is_present json_file files) ≡ true =
                simp (eq, stats, there, is_present) in
              absurd (ground arith))
        | inr other ↦ other
      ]

  decode_all-kept :
      (secret path bytes : Bytes) (gpg_files : List Bytes) (files : Files)
      → stat_fails path ≡ false
      → lookup path files ≡ some bytes
      → lookup path (decode_all run read_dir stat_fails secret gpg_files files).files ≡ some bytes
  unfolding decode_all
  decode_all-kept secret path bytes [] files stats there = there
  decode_all-kept secret path bytes (gpg_file ∷ more) files stats there =
      let json_file = trim_suffix gpg_file (lit ".gpg") in
      let after = run (decrypt_command secret json_file gpg_file) files in
      elim (Bool-cases (not (stat_fails json_file) && is_present json_file files)) [
        | inl skips ↦ rw skips (decode_all-kept secret path bytes more files stats there)
        | inr missing ↦
            (let other = output_differs json_file path bytes files stats there missing in
              let kept = writes secret json_file gpg_file path files other ∙ there in
              elim (Bool-cases after.0) [
                | inl good ↦
                    rw (missing, good) (decode_all-kept secret path bytes more after.1 stats kept)
                | inr bad ↦ rw (missing, bad) kept
              ])
      ]

  -- Where gpg writes only the file that it is given as its output, and Stat does not fail at a
  -- path, decoding the configuration leaves a file that is there as it is, whether or not it
  -- returns an error.
  pub decode_uptime_service_conf-kept :
      (env : Dict Bytes) (path bytes : Bytes) (files : Files)
      → stat_fails path ≡ false
      → lookup path files ≡ some bytes
      → lookup path (decode_uptime_service_conf run read_dir stat_fails env files).files
        ≡ some bytes
  unfolding decode_uptime_service_conf with_files
  decode_uptime_service_conf-kept env path bytes files stats there =
      let secret = getenv env (lit "UPTIME_SERVICE_SECRET") in
      let found = get_dir_files (read_dir files) uptime_service_config_dir (lit ".gpg") in
      elim (Bool-cases (is_empty secret)) [
        | inl unset ↦ rw unset there
        | inr set ↦ elim (Option-cases found) [
          | inl failed ↦ rw (set, failed) there
          | inr (gpg_files, listed) ↦
              rw (set, listed) (decode_all-kept secret path bytes gpg_files files stats there)
        ]
      ]
