-- ===== src/Config/Env/File.antt =====
-- src/delegation_backend/app_config.go: LoadEnv, from a file or from the environment.
use uptime_service_backend.Base.{◌≡◌, Option, none, some, if◌then◌else◌}
use uptime_service_backend.Base.Int.{ℤ}
use uptime_service_backend.Base.Text.{Bytes, lit, is_empty}
use uptime_service_backend.Base.Dict.{Dict, insert}
use uptime_service_backend.Base.Result.{Result, ok, err, ◌>>=◌, or_fail}
use uptime_service_backend.Config.{AwsConfig, AppConfig}
use uptime_service_backend.Config.Env.{Fatal, getenv, load_env}

-- Why LoadEnv is fatal.
pub data LoadError : Type 0 where
  no_file bad_json : LoadError
  bad_env : Fatal → LoadError

-- The AWS libraries read the credentials from the environment.
pub set_credentials : Option AwsConfig → Dict Bytes → Dict Bytes
set_credentials none env = env
set_credentials (some aws) env =
    insert (lit "AWS_SECRET_ACCESS_KEY") aws.secret_access_key
      (insert (lit "AWS_ACCESS_KEY_ID") aws.access_key_id env)

abbrev from_env : Result Fatal AppConfig → Dict Bytes → Result LoadError (AppConfig × Dict Bytes)
from_env (ok config) env = ok (config, env)
from_env (err e) env = err (bad_env e)

-- Opening a file, and encoding/json, are parameters, as strconv.Atoi is. The environment that
-- LoadEnv leaves is given with the configuration.
module _ (open_file : Bytes → Option Bytes) (decode : Bytes → Option AppConfig)
    (atoi : Bytes → Option ℤ) where
  from_file : Bytes → Dict Bytes → Result LoadError (AppConfig × Dict Bytes)
  from_file name env = do
    bytes ← or_fail (open_file name) no_file
    config ← or_fail (decode bytes) bad_json
    ok (config, set_credentials config.aws env)

  pub load_config : Dict Bytes → Result LoadError (AppConfig × Dict Bytes)
  load_config env =
      let config_file = getenv env (lit "CONFIG_FILE") in
      if is_empty config_file then from_env (load_env atoi env) env else from_file config_file env

-- The credentials of an AWS configuration are those of the environment.
abbrev pub Agrees : Dict Bytes → Option AwsConfig → Type 0
Agrees env none = Unit
Agrees env (some aws) =
    (getenv env (lit "AWS_ACCESS_KEY_ID") ≡ aws.access_key_id)
    × (getenv env (lit "AWS_SECRET_ACCESS_KEY") ≡ aws.secret_access_key)
