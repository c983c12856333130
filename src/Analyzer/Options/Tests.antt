-- ===== src/Analyzer/Options/Tests.antt =====
-- The analyzer's configuration from an environment that sets what has to be set.
use uptime_service_backend.Base.{false, none, some, [], ◌∷◌}
use uptime_service_backend.Base.Int.{pos}
use uptime_service_backend.Base.Text.{Bytes, lit, is_empty}
use uptime_service_backend.Base.Dict.{Dict}
use uptime_service_backend.Base.Result.{AllOk}
use uptime_service_backend.Clock.{Instant}
use uptime_service_backend.Config.Env.{getenv}
use uptime_service_backend.Analyzer.Options.{AppConfig, Loaders, load_env}
use uptime_service_backend.Analyzer.Options.Usable.{Loaded, load_env-Loaded}

abbrev now : Instant
now = pos 63_000_000_000_000_000_000

abbrev loaders : Loaders
loaders = record {
  parse_time = λ s. some now;
  parse_int = λ s. some (pos 60);
  decode_config = λ s. none;
  decode_credentials = λ s. none;
}

abbrev empty : AppConfig
empty = record {
  aws = record { region = []; account_id = [] };
  network_name = [];
  period = record { start = pos 0; end = pos 0; interval = pos 0 };
  ignore_ips = false;
  output = record { stdout = false; local = []; s3_bucket = []; s3_key = [] };
}

abbrev env : Dict Bytes
env =
    (lit "CONFIG_NETWORK_NAME", lit "itn")
    ∷ (lit "CONFIG_AWS_REGION", lit "us-west-2")
    ∷ (lit "CONFIG_AWS_ACCOUNT_ID", lit "1")
    ∷ (lit "CONFIG_S3_BUCKET", lit "b")
    ∷ (lit "CONFIG_S3_KEY", lit "k")
    ∷ []

load_env-Loaded_example :
    AllOk
      (λ (r : AppConfig × Dict Bytes).
        Loaded loaders now (is_empty (getenv env (lit "CONFIG_FILE"))) r.0)
      (load_env loaders now empty env)
load_env-Loaded_example = load_env-Loaded loaders now empty env
