-- ===== src/Analyzer/Tests.antt =====
-- Runs of the analyzer on a listing of one page, and of the choice of a period.
use uptime_service_backend.Base.{◌≡◌, refl, true, false, none, some, [], ◌∷◌, arith}
use uptime_service_backend.Base.Int.{pos, ◌+ℤ◌, ◌-ℤ◌, pos_part, neg_part}
use uptime_service_backend.Base.Text.{lit}
use uptime_service_backend.Base.Result.{AllOk}
use Prim.Native.Nat.{◌*◌}
use uptime_service_backend.Clock.Civil.{civil}
use uptime_service_backend.Clock.{Instant, add, hour}
use uptime_service_backend.Request.{MetaToBeSaved}
use uptime_service_backend.Samples.{libraries, key}
use uptime_service_backend.Analyzer.{Libraries, Listing}
use uptime_service_backend.Analyzer.Period.{
  deafult_period_start, submissions_in_multiple_buckets, PeriodConfig, sub, get_period_config, Kept,
  IsDuration, get_period_config_lem,
}
use uptime_service_backend.Analyzer.Period.Mismatch.{minutes, get_period_config-minutes}
use uptime_service_backend.Analyzer.Identity.{create_identities}
use uptime_service_backend.Analyzer.Identity.Distinct.{AllDistinct, create_identities-distinct}

abbrev start : Instant
start = pos 63_000_000_000_000_000_000

abbrev period : PeriodConfig
period = record { start = start; end = add start (pos hour); interval = pos hour }

hour-IsDuration : IsDuration (pos hour)
unfolding pos_part neg_part
hour-IsDuration = (omega arith, omega arith)

get_period_config_lem_example :
    (sub period.end period.start ≡ period.interval)
    × Kept (some start) period.start
    × Kept none period.end
unfolding get_period_config
get_period_config_lem_example =
    get_period_config_lem (some start) none (some (pos hour)) start hour-IsDuration period refl

abbrev empty_meta : MetaToBeSaved
empty_meta = record {
  created_at = [];
  peer_id = [];
  snark_work = none;
  remote_addr = [];
  submitter = key;
  block_hash = [];
  graphql_control_port = pos 0;
  built_with_commit_sha = [];
}

abbrev lib : Libraries
lib = record {
  md5_hex = λ s. s;
  unmarshal_meta = λ s m. some (record m { remote_addr = s });
  parse_time = λ s. some (pos 63_000_001_000_000_000_000);
  compile_regexp = λ s. some (λ key. true);
}

abbrev listing : Listing
listing =
    some (
      (record {
        key = lit "a/submissions/d/2024-01-02T03:04:05Z-k.json";
        contents = some (lit "1.2.3.4");
      })
      ∷ (record {
        key = lit "a/submissions/d/2024-01-02T03:05:05Z-k.json";
        contents = some (lit "1.2.3.4");
      })
      ∷ [])
    ∷ []

create_identities-distinct_example : AllOk AllDistinct (
    create_identities lib libraries
      (record { period = period; ignore_ips = false })
      empty_meta
      listing)
create_identities-distinct_example =
    create_identities-distinct lib libraries (record { period = period; ignore_ips = false })
      empty_meta listing

get_period_config-minutes_example :
    get_period_config (some start) (some (add start (minutes 720))) (some (minutes 720)) start
    ≡ none
get_period_config-minutes_example =
    get_period_config-minutes start start 720 (omega arith) (omega arith)

earlier : deafult_period_start (add start (pos (12 * hour))) ≡ start
unfolding deafult_period_start add ◌+ℤ◌ ◌-ℤ◌
earlier = refl

buckets : submissions_in_multiple_buckets start (pos 0) ≡ false
unfolding submissions_in_multiple_buckets civil
buckets = refl
