-- ===== src/Analyzer/Options.antt =====
-- src/itn_uptime_analyzer/app_config.go: the analyzer's configuration. `log.Fatalf`, and an error
-- that is logged before `os.Exit(1)`, end the program; they are an error value.
pub mod Usable
mod Tests
use uptime_service_backend.Base.{
  ℕ, zero, suc, Bool, true, false, not, ◌&&◌, ◌||◌, Option, none, some, List, [], ◌∷◌, ◌++◌,
  if◌then◌else◌,
}
use uptime_service_backend.Base.Int.{ℤ, pos, ◌*ℤ◌, wrap64, is_zero}
use uptime_service_backend.Base.Text.{Bytes, lit, equal, is_empty}
use uptime_service_backend.Base.Dict.{Dict, insert}
use uptime_service_backend.Base.Result.{Result, ok, err, ◌>>=◌, ◌>>◌, refuse_if, or_fail}
use uptime_service_backend.Clock.{Instant, Duration, minute}
use uptime_service_backend.Clock.Civil.{Time}
use uptime_service_backend.Request.{is_nil_time}
use uptime_service_backend.Config.Env.{getenv}
use uptime_service_backend.Analyzer.Period.{PeriodConfig, get_period_config}

pub record AwsConfig : Type 0 where
  pub region : Bytes
  pub account_id : Bytes

pub record OutputConfig : Type 0 where
  pub stdout : Bool
  pub local : Bytes
  pub s3_bucket : Bytes
  pub s3_key : Bytes

pub record AppConfig : Type 0 where
  pub aws : AwsConfig
  pub network_name : Bytes
  pub period : PeriodConfig
  pub ignore_ips : Bool
  pub output : OutputConfig

pub record AwsCredentials : Type 0 where
  pub access_key_id : Bytes
  pub secret_access_key : Bytes

-- Why the program stops.
pub data Fatal : Type 0 where
  missing invalid not_bool : Bytes → Fatal
  half_s3 mismatch bad_config bad_credentials : Fatal

-- A configuration as it is decoded from JSON. Its bounds have locations, at which only the test
-- for the default value looks.
pub record Decoded : Type 0 where
  pub config : AppConfig
  pub start : Time
  pub end : Time

-- `Option` of the code: how a setting is checked in a decoded configuration, and how it is read
-- from the environment.
pub record ConfigOption : Type 0 where
  pub update_json : Decoded → AppConfig → Result Fatal AppConfig
  pub update_from_env : Dict Bytes → AppConfig → Result Fatal AppConfig

abbrev pub noop : Decoded → AppConfig → Result Fatal AppConfig
noop decoded config = ok config

unfoldable pub get_env_parsed :
    {A : Type 0} → Dict Bytes → (Bytes → Option A) → Bytes → Result Fatal (Option A)
get_env_parsed env parser name =
    let raw = getenv env name in
    if is_empty raw
    then ok none
    else (or_fail (parser raw) (invalid name) >>= λ parsed. ok (some parsed))

unfoldable pub unless_default : {A : Type 0} → Bool → A → Option A
unless_default is_default value = if is_default then none else some value

unfoldable pub bool_option : Bytes → (Bool → AppConfig → AppConfig) → ConfigOption
bool_option variable set = record {
  update_json = noop;
  update_from_env = λ env config.
      let raw = getenv env variable in
      if is_empty raw || equal raw (lit "0")
      then ok (set false config)
      else if equal raw (lit "1")
      then ok (set true config)
      else err (not_bool variable);
}

unfoldable pub string_option : Bytes → Option Bytes → (Bytes → AppConfig → AppConfig) → ConfigOption
string_option variable default set = record {
  update_json = noop;
  update_from_env = λ env config.
      let value = getenv env variable in
      if is_empty value
      then elim default [ some d ↦ ok (set d config) | none ↦ err (missing variable) ]
      else ok (set value config);
}

unfoldable pub network_name_option : ConfigOption
network_name_option =
    string_option (lit "CONFIG_NETWORK_NAME") none
      λ value config. record config { network_name = value }

unfoldable pub aws_region_option : ConfigOption
aws_region_option =
    string_option (lit "CONFIG_AWS_REGION") none
      λ value config. record config { aws = record config.aws { region = value } }

unfoldable pub aws_account_id_option : ConfigOption
aws_account_id_option =
    string_option (lit "CONFIG_AWS_ACCOUNT_ID") none
      λ value config. record config { aws = record config.aws { account_id = value } }

unfoldable pub ignore_ips_option : ConfigOption
ignore_ips_option =
    bool_option (lit "CONFIG_IGNORE_IPS") λ value config. record config { ignore_ips = value }

unfoldable pub std_out_option : ConfigOption
std_out_option =
    bool_option (lit "CONFIG_STDOUT")
      λ value config. record config { output = record config.output { stdout = value } }

unfoldable pub local_output_option : ConfigOption
local_output_option =
    string_option (lit "CONFIG_LOCAL_OUTPUT") (some [])
      λ value config. record config { output = record config.output { local = value } }

-- The environment has to give both, though the message would allow neither.
unfoldable pub s3_output_option : ConfigOption
s3_output_option = record {
  update_json = λ decoded config.
      let no_bucket = is_empty config.output.s3_bucket in
      let no_key = is_empty config.output.s3_key in
      if (no_bucket && not no_key) || (not no_bucket && no_key) then err half_s3 else ok config;
  update_from_env = λ env config.
      let bucket = getenv env (lit "CONFIG_S3_BUCKET") in
      let key = getenv env (lit "CONFIG_S3_KEY") in
      if not (is_empty bucket) && not (is_empty key)
      then ok (record config { output = record config.output { s3_bucket = bucket; s3_key = key } })
      else err half_s3;
}

-- Go's libraries: time.Parse with RFC 3339, strconv.ParseInt to 64 bits, opening a file and
-- decoding it, as a configuration or as credentials.
pub record Loaders : Type 0 where
  pub parse_time : Bytes → Option Instant
  pub parse_int : Bytes → Option ℤ
  pub decode_config : Bytes → Option Decoded
  pub decode_credentials : Bytes → Option AwsCredentials

module _ (lib : Loaders) (now : Instant) where
  unfoldable pub parse_duration : Bytes → Option Duration
  parse_duration raw = elim (lib.parse_int raw) [
    | none ↦ none
    | some t ↦ some (wrap64 (t *ℤ pos minute))
  ]

  abbrev set_period : AppConfig → Option PeriodConfig → Result Fatal AppConfig
  set_period config found =
      or_fail found mismatch >>= λ period. ok (record config { period = period })

  unfoldable pub period_option : ConfigOption
  period_option = record {
    update_json = λ decoded config. set_period config (
        get_period_config (unless_default (is_nil_time decoded.start) config.period.start)
          (unless_default (is_nil_time decoded.end) config.period.end)
          (unless_default (is_zero config.period.interval) config.period.interval) now);
    update_from_env = λ env config.
        get_env_parsed env lib.parse_time (lit "CONFIG_PERIOD_START") >>= λ start.
        get_env_parsed env lib.parse_time (lit "CONFIG_PERIOD_END") >>= λ end.
        get_env_parsed env parse_duration (lit "CONFIG_PERIOD_INTERVAL") >>= λ interval.
        set_period config (get_period_config start end interval now);
  }

  unfoldable pub options : List ConfigOption
  options =
      network_name_option ∷ aws_region_option ∷ aws_account_id_option ∷ ignore_ips_option
      ∷ std_out_option ∷ local_output_option ∷ s3_output_option ∷ period_option ∷ []

  -- One loop over the options.
  abbrev pub update_all :
      (ConfigOption → AppConfig → Result Fatal AppConfig)
      → List ConfigOption
      → AppConfig
      → Result Fatal AppConfig
  update_all update [] config = ok config
  update_all update (option ∷ more) config = update option config >>= update_all update more

  pub load_aws_credentials : Dict Bytes → Bytes → Result Fatal (Dict Bytes)
  load_aws_credentials env filename = do
    credentials ← or_fail (lib.decode_credentials filename) bad_credentials
    ok (
        insert (lit "AWS_SECRET_ACCESS_KEY") credentials.secret_access_key
          (insert (lit "AWS_ACCESS_KEY_ID") credentials.access_key_id env))

  -- LoadEnv: the configuration, and the environment that it leaves. `empty` is the zero value.
  unfoldable pub load_env : AppConfig → Dict Bytes → Result Fatal (AppConfig × Dict Bytes)
  load_env empty env = do
    let config_file = getenv env (lit "CONFIG_FILE")
    let from_file = (do
      decoded ← or_fail (lib.decode_config config_file) bad_config
      update_all (λ o. o.update_json decoded) options decoded.config)
    let from_env = update_all (λ o. o.update_from_env env) options empty
    config ← if is_empty config_file then from_env else from_file
    let credentials_file = getenv env (lit "AWS_CREDENTIALS_FILE")
    env' ← if is_empty credentials_file then ok env else load_aws_credentials env credentials_file
    ok (config, env')
