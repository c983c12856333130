-- ===== src/Analyzer/Report/Samples.antt =====
-- A bucket that holds two submissions with different ports, and what the analyzer reads of it.
use uptime_service_backend.Base.{
  ℕ, zero, suc, ◌≡◌, refl, true, false, none, some, [], ◌∷◌, ◌++◌, length,
}
use uptime_service_backend.Base.Result.{ok, err}
use uptime_service_backend.Base.Int.{pos, ◌+ℤ◌, ◌*ℤ◌, ◌-ℤ◌, wrap64, pos_part, neg_part}
use uptime_service_backend.Base.Text.{Bytes, lit}
use uptime_service_backend.Base.Dict.{Dict}
use uptime_service_backend.Clock.{Instant}
use uptime_service_backend.Keys.{pk_string}
use uptime_service_backend.Request.{MetaToBeSaved}
use uptime_service_backend.Samples.{libraries, key}
use uptime_service_backend.Analyzer.{fatal, Object, Listing, Libraries, get_submission_time}
use uptime_service_backend.Analyzer.Identity.{
  Identity, create_identities, identity_of, visit, visit_page, visit_pages, is_identity_in_array,
  get_full_identity, get_partial_identity,
}
use uptime_service_backend.Analyzer.Uptime.{
  Floats, get_uptime, spacing, needed, percentage, matches_identity, read_object, count_submission,
}
use uptime_service_backend.Analyzer.Options.{
  AppConfig, Loaders, load_env, options, network_name_option, aws_region_option,
  aws_account_id_option, ignore_ips_option, std_out_option, local_output_option, s3_output_option,
  period_option, string_option, bool_option, get_env_parsed, parse_duration,
}
use uptime_service_backend.Config.Env.{getenv}
use uptime_service_backend.Analyzer.Period.{get_period_config}
use uptime_service_backend.Clock.{add}
use uptime_service_backend.Storage.{split}
use uptime_service_backend.Base.Decimal.{itoa}
use uptime_service_backend.Base.Text.{equal}
use uptime_service_backend.Base.Dict.{lookup}
use uptime_service_backend.Analyzer.Report.{PeriodTexts, System, settings_of}

abbrev pub now : Instant
now = pos 63_000_000_000_000_000_000

abbrev pub texts : AppConfig → PeriodTexts
texts config = record {
  start = lit "2024-01-02 00:00:00 +0000 UTC";
  end = lit "2024-01-02 12:00:00 +0000 UTC";
  interval = lit "12h0m0s";
  start_name = lit "2024-01-02T00:00:00";
  end_name = lit "2024-01-02T12:00:00";
  day = lit "2024-01-02";
}

-- The text of an object is the creation time, and its length the port.
abbrev pub lib : Libraries
lib = record {
  md5_hex = λ s. s;
  unmarshal_meta = λ s m. some (record m { created_at = s; graphql_control_port = pos (length s) });
  parse_time = λ s. some (pos 63_000_000_001_000_000_000);
  compile_regexp = λ s. some (λ key. true);
}

abbrev pub object : Bytes → Object
object contents = record {
  key = lit "itn/submissions/2024-01-02/2024-01-02T03:04:05Z-k.json";
  contents = some contents;
}

-- The listing of the second identity fails.
abbrev pub failing : ℕ → Listing
failing (suc (suc zero)) = none ∷ []
failing n = some (object (lit "ab") ∷ object (lit "abc") ∷ []) ∷ []

abbrev pub working : ℕ → Listing
working n = some (object (lit "ab") ∷ object (lit "abc") ∷ []) ∷ []

abbrev pub system : (ℕ → Listing) → System
system list = record {
  loads_aws = λ env region. true;
  create = λ path. true;
  create_temp = true;
  write = λ contents msg. contents ++ msg;
  seeks = true;
  puts = λ bucket key body. true;
  list = λ bucket prefix n. list n;
}

abbrev pub loaders : Loaders
loaders = record {
  parse_time = λ s. some now;
  parse_int = λ s. some (pos 60);
  decode_config = λ s. none;
  decode_credentials = λ s. none;
}

abbrev pub empty_meta : MetaToBeSaved
empty_meta = record {
  created_at = [];
  peer_id = [];
  snark_work = none;
  remote_addr = lit "1.2.3.4";
  submitter = key;
  block_hash = [];
  graphql_control_port = pos 0;
  built_with_commit_sha = [];
}

abbrev pub empty : AppConfig
empty = record {
  aws = record { region = []; account_id = [] };
  network_name = [];
  period = record { start = pos 0; end = pos 0; interval = pos 0 };
  ignore_ips = false;
  output = record { stdout = false; local = []; s3_bucket = []; s3_key = [] };
}

abbrev pub env : Dict Bytes
env =
    (lit "CONFIG_NETWORK_NAME", lit "itn")
    ∷ (lit "CONFIG_AWS_REGION", lit "us-west-2")
    ∷ (lit "CONFIG_AWS_ACCOUNT_ID", lit "1")
    ∷ (lit "CONFIG_STDOUT", lit "1")
    ∷ (lit "CONFIG_S3_BUCKET", lit "b")
    ∷ (lit "CONFIG_S3_KEY", lit "k")
    ∷ (lit "CONFIG_PERIOD_START", lit "2024-01-02T00:00:00Z")
    ∷ []

abbrev pub config : AppConfig
config = record {
  aws = record { region = lit "us-west-2"; account_id = lit "1" };
  network_name = lit "itn";
  period = record {
    start = now;
    end = pos 63_000_043_200_000_000_000;
    interval = pos 43_200_000_000_000;
  };
  ignore_ips = false;
  output = record { stdout = true; local = []; s3_bucket = lit "b"; s3_key = lit "k" };
}

pub loads : load_env loaders now empty env ≡ ok (config, env)
unfolding load_env options network_name_option aws_region_option aws_account_id_option
    ignore_ips_option std_out_option local_output_option s3_output_option period_option
    string_option bool_option get_env_parsed parse_duration getenv lookup get_period_config equal
    add ◌+ℤ◌
loads = refl

abbrev pub pages : Listing
pages = working 0

abbrev pub with_port : ℕ → Identity
with_port n = record {
  id = pk_string libraries key ++ lit "-1.2.3.4-" ++ itoa (pos n);
  public_key = pk_string libraries key;
  public_ip = lit "1.2.3.4";
  graph_ql_port = some (itoa (pos n));
  uptime = [];
}

pub found :
    create_identities lib libraries (settings_of config) empty_meta pages
    ≡ ok (with_port 2 ∷ with_port 3 ∷ [])
unfolding settings_of create_identities visit_pages visit_page visit identity_of
    is_identity_in_array get_full_identity get_partial_identity get_submission_time split pos_part
    neg_part add ◌+ℤ◌ equal pk_string itoa
found = refl

abbrev pub floats : Floats ℕ
floats = record {
  whole_hours = λ d. pos 12;
  percent = λ a b. a;
  exceeds_hundred = λ a. false;
  hundred = 100;
  two_decimals = λ a. itoa (pos a);
}

abbrev pub measured : ℕ → Identity
measured n = record (with_port n) { uptime = lit "1" }

pub measured_two :
    get_uptime lib libraries (settings_of config) (with_port 2) floats (pos 15) empty_meta pages
    ≡ ok (measured 2)
unfolding settings_of get_uptime spacing needed percentage matches_identity read_object
    count_submission uptime_service_backend.Analyzer.Uptime.visit
    uptime_service_backend.Analyzer.Uptime.visit_page
    uptime_service_backend.Analyzer.Uptime.visit_pages get_submission_time split pos_part neg_part
    add ◌+ℤ◌ ◌*ℤ◌ ◌-ℤ◌ wrap64 equal pk_string itoa
measured_two = refl

pub measured_three :
    get_uptime lib libraries (settings_of config) (with_port 3) floats (pos 15) empty_meta pages
    ≡ ok (measured 3)
unfolding settings_of get_uptime spacing needed percentage matches_identity read_object
    count_submission uptime_service_backend.Analyzer.Uptime.visit
    uptime_service_backend.Analyzer.Uptime.visit_page
    uptime_service_backend.Analyzer.Uptime.visit_pages get_submission_time split pos_part neg_part
    add ◌+ℤ◌ ◌*ℤ◌ ◌-ℤ◌ wrap64 equal pk_string itoa
measured_three = refl

pub not_listed :
    get_uptime lib libraries
      (settings_of config)
      (with_port 3)
      floats
      (pos 15)
      empty_meta
      (none ∷ [])
    ≡ err fatal
unfolding settings_of get_uptime spacing needed percentage matches_identity read_object
    count_submission uptime_service_backend.Analyzer.Uptime.visit
    uptime_service_backend.Analyzer.Uptime.visit_page
    uptime_service_backend.Analyzer.Uptime.visit_pages get_submission_time split pos_part neg_part
    add ◌+ℤ◌ ◌*ℤ◌ ◌-ℤ◌ wrap64 equal pk_string itoa
not_listed = refl
