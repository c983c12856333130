-- ===== src/Analyzer/Report.antt =====
-- src/cmd/itn_uptime_analyzer/main_itn_uptime_analyzer.go: the program that measures uptime, from
-- its environment to the report that it prints, writes to a file and uploads. OutputFileName is in
-- src/itn_uptime_analyzer/app_config.go and GetBucketName in constants.go.
pub mod Loop
pub mod Whole
pub mod Listed
pub mod Samples
mod Tests
use uptime_service_backend.Base.{
  ℕ, suc, ◌+◌, ◌≡◌, Bool, true, false, not, ◌&&◌, ◌||◌, Option, none, some, List, [], ◌∷◌, ◌++◌,
  if◌then◌else◌,
}
use uptime_service_backend.Base.Result.{Result, ok, err}
use uptime_service_backend.Base.Int.{ℤ, pos}
use uptime_service_backend.Base.Text.{Bytes, lit, is_empty}
use uptime_service_backend.Base.Dict.{Dict}
use uptime_service_backend.Clock.{Instant}
use uptime_service_backend.Externals.{Externals}
use uptime_service_backend.Request.{MetaToBeSaved}
use uptime_service_backend.Analyzer.{Halt, Listing, Libraries}
use uptime_service_backend.Analyzer.Identity.{Identity, Settings, create_identities}
use uptime_service_backend.Analyzer.Uptime.{Floats, get_uptime}
use uptime_service_backend.Analyzer.Options.{AppConfig, Fatal, Loaders, load_env}

-- Why the program ends before its report is complete.
pub data Failure : Type 0 where
  bad_settings : Fatal → Failure
  bad_aws no_file no_output : Failure
  in_identities in_uptime : Halt → Failure
  no_seek no_upload : Failure

-- The texts that fmt and time.Format make of the configured period, whose bounds have locations:
-- those of the heading, those of the file's name, and the day whose submissions are listed.
pub record PeriodTexts : Type 0 where
  pub start : Bytes
  pub end : Bytes
  pub interval : Bytes
  pub start_name : Bytes
  pub end_name : Bytes
  pub day : Bytes

-- The system that the program runs on. `write` is the file after a WriteString, whose error the
-- code ignores; `list` is the n-th listing of a bucket below a prefix.
pub record System : Type 0 where
  pub loads_aws : Dict Bytes → Bytes → Bool
  pub create : Bytes → Bool
  pub create_temp : Bool
  pub write : Bytes → Bytes → Bytes
  pub seeks : Bool
  pub puts : Bytes → Bytes → Bytes → Bool
  pub list : Bytes → Bytes → ℕ → Listing

pub record Upload : Type 0 where
  pub bucket : Bytes
  pub key : Bytes
  pub body : Bytes

-- What was printed, and the contents of the output file if there is one. The builtin `print`
-- writes to the standard error.
pub record Outputs : Type 0 where
  pub printed : Bytes
  pub file : Option Bytes

-- How a run ends: what it has put out, the object that it has uploaded, and why it has failed.
pub record Outcome : Type 0 where
  pub outputs : Outputs
  pub uploaded : Option Upload
  pub failure : Option Failure

pub get_bucket_name : AppConfig → Bytes
get_bucket_name config = config.aws.account_id ++ lit "-uptime-service-backend"

pub output_file_name : PeriodTexts → Bytes
output_file_name texts =
    lit "summary_" ++ texts.start_name ++ lit "-" ++ texts.end_name ++ lit ".csv"

-- The prefix of the listings of CreateIdentities and GetUptime.
pub submissions_prefix : AppConfig → PeriodTexts → Bytes
submissions_prefix config texts = config.network_name ++ lit "/submissions/" ++ texts.day

pub settings_of : AppConfig → Settings
settings_of config = record { period = config.period; ignore_ips = config.ignore_ips }

abbrev pub line_feed : Bytes
line_feed = 10 ∷ []

pub heading : AppConfig → PeriodTexts → Bytes × Bytes
heading config texts =
    if config.ignore_ips
    then (
      lit "Period start; "
          ++ texts.start
          ++ line_feed
          ++ lit "Period end; "
          ++ texts.end
          ++ line_feed,
      lit "Interval; " ++ texts.interval ++ line_feed ++ lit "public key; uptime (%)" ++ line_feed,
    )
    else (
      lit "Period start; "
          ++ texts.start
          ++ lit ";"
          ++ line_feed
          ++ lit "Period end; "
          ++ texts.end
          ++ lit ";"
          ++ line_feed,
      lit "Interval; "
          ++ texts.interval
          ++ lit ";"
          ++ line_feed
          ++ lit "public key; public ip; uptime (%)"
          ++ line_feed,
    )

pub line : AppConfig → Identity → Bytes
line config x =
    if config.ignore_ips
    then x.public_key ++ lit "; " ++ x.uptime ++ line_feed
    else x.public_key ++ lit "; " ++ x.public_ip ++ lit "; " ++ x.uptime ++ line_feed

-- A file that is created is empty.
abbrev pub created : Bool → Result Failure (Option Bytes)
created true = ok (some [])
created false = err no_file

module _ (system : System) where
  -- The output file, if one is asked for.
  pub open_output : AppConfig → Result Failure (Option Bytes)
  open_output config =
      if not (is_empty config.output.local)
      then created (system.create config.output.local)
      else if not (is_empty config.output.s3_key)
      then created system.create_temp
      else ok none

  abbrev write_file : Bytes → Option Bytes → Option Bytes
  write_file msg none = none
  write_file msg (some contents) = some (system.write contents msg)

  -- Whether the function `output` is set.
  pub has_output : AppConfig → Option Bytes → Bool
  has_output config none = config.output.stdout
  has_output config (some contents) = true

  pub output : AppConfig → Bytes → Outputs → Outputs
  output config msg o = record {
    printed = if config.output.stdout then o.printed ++ msg else o.printed;
    file = write_file msg o.file;
  }

  abbrev pub fails : Failure → Outputs → Outcome
  fails e o = record { outputs = o; uploaded = none; failure = some e }

  -- The end of main, which uploads the file.
  pub upload : AppConfig → PeriodTexts → Outputs → Outcome
  upload config texts o =
      let key = config.output.s3_key ++ lit "/" ++ output_file_name texts in
      if is_empty config.output.s3_key
      then record { outputs = o; uploaded = none; failure = none }
      else elim o.file [
        | none ↦ fails no_seek o
        | some body ↦
            if not system.seeks
            then fails no_seek o
            else if system.puts config.output.s3_bucket key body
            then record {
              outputs = o;
              uploaded = some (record { bucket = config.output.s3_bucket; key = key; body = body });
              failure = none;
            }
            else fails no_upload o
      ]

  -- What main does with the outcome of the loop.
  abbrev pub after_loop : AppConfig → PeriodTexts → Outputs × Option Failure → Outcome
  after_loop config texts (o, none) = upload config texts o
  after_loop config texts (o, some e) = fails e o

  module _ (lib : Libraries) (ext : Externals) {F : Type 0} (floats : Floats F)
      (empty : MetaToBeSaved) (config : AppConfig) (texts : PeriodTexts) where
    -- The n-th listing that the program asks for.
    abbrev pub listing : ℕ → Listing
    listing n = system.list (get_bucket_name config) (submissions_prefix config texts) n

    -- The loop over the identities, of which the next one is measured by the n-th listing. The
    -- sync period is 15 minutes.
    pub report : ℕ → List Identity → Outputs → Outputs × Option Failure
    report n [] o = (o, none)
    report n (x ∷ xs) o =
        elim (get_uptime lib ext (settings_of config) x floats (pos 15) empty (listing n)) [
          | err e ↦ (o, some (in_uptime e))
          | ok x' ↦ report (suc n) xs (output config (line config x') o)
        ]

    -- main once the output is chosen.
    pub measure : Option Bytes → Outcome
    measure file =
        let (first, second) = heading config texts in
        let o = output config second (output config first (record { printed = []; file = file })) in
        elim (create_identities lib ext (settings_of config) empty (listing 0)) [
          | err e ↦ fails (in_identities e) o
          | ok xs ↦ after_loop config texts (report 1 xs o)
        ]

  abbrev nothing : Outputs
  nothing = record { printed = []; file = none }

  -- main. `empty_config` and `empty` are zero values.
  pub main :
      Libraries
      → Externals
      → {F : Type 0} → Floats F
      → Loaders
      → Instant
      → (AppConfig → PeriodTexts)
      → AppConfig
      → MetaToBeSaved
      → Dict Bytes
      → Outcome
  main lib ext floats loaders now texts empty_config empty env =
      elim (load_env loaders now empty_config env) [
        | err e ↦ fails (bad_settings e) nothing
        | ok (config, env') ↦
            if not (system.loads_aws env' config.aws.region)
            then fails bad_aws nothing
            else elim (open_output config) [
              | err e ↦ fails e nothing
              | ok file ↦
                  if not (has_output config file)
                  then fails no_output (record { printed = []; file = file })
                  else measure lib ext floats empty config (texts config) file
            ]
      ]
