-- ===== src/Config/Tests.antt =====
-- Runs of LoadEnv.
use uptime_service_backend.Base.{true, false, none, some, [], ◌∷◌, Option}
use uptime_service_backend.Base.Int.{ℤ}
use uptime_service_backend.Base.Text.{Bytes, lit}
use uptime_service_backend.Base.Dict.{Dict}
use uptime_service_backend.Base.Result.{AllOk}
use uptime_service_backend.Config.{AppConfig}
use uptime_service_backend.Config.Env.{load_env}
use uptime_service_backend.Config.Env.Complete.{IsComplete, load_env-IsComplete}

abbrev env : Dict Bytes
env =
    (lit "CONFIG_NETWORK_NAME", lit "mainnet")
    ∷ (lit "DELEGATION_WHITELIST_DISABLED", lit "1")
    ∷ (lit "CONFIG_FILESYSTEM_PATH", lit "/data")
    ∷ []

abbrev no_number : Bytes → Option ℤ
no_number s = none

load_env-IsComplete_example : AllOk IsComplete (load_env no_number env)
load_env-IsComplete_example = load_env-IsComplete no_number env

abbrev from_file : Dict Bytes
from_file = (lit "CONFIG_FILE", lit "config.json") ∷ []

abbrev config : AppConfig
config = record {
  network_name = lit "mainnet";
  gsheet_id = [];
  delegation_whitelist_list = [];
  delegation_whitelist_column = [];
  delegation_whitelist_disabled = true;
  verify_signature_disabled = false;
  aws = some (record {
    account_id = lit "1";
    bucket_name_suffix = lit "uptime";
    region = lit "us-west-2";
    access_key_id = lit "id";
    secret_access_key = lit "secret";
  });
  aws_keyspaces = none;
  local_file_system = none;
  postgre_sql = none;
}
