-- ===== src/Server/Tests.antt =====
-- A server without a whitelist, with a directory to save to, that has answered one submission.
use uptime_service_backend.Base.{ℕ, ◌≡◌, refl, true, false, none, some, List, [], ◌++◌, arith, inl}
use uptime_service_backend.Base.Int.{pos}
use uptime_service_backend.Base.Text.{Bytes, lit, equal}
use uptime_service_backend.Base.Dict.{lookup}
use uptime_service_backend.Base.Result.{Result, ok}
use uptime_service_backend.Clock.{Instant}
use uptime_service_backend.Samples.{libraries, pk_string-letters}
use uptime_service_backend.Config.{AppConfig, network_id}
use uptime_service_backend.Config.Interval.{Atoi, bad, set_requests_per_pk_hourly}
use uptime_service_backend.Backoff.{Error}
use uptime_service_backend.Whitelist.{Cell}
use uptime_service_backend.Limiter.{max_capacity, IsCapacity, new_attempt_counter}
use uptime_service_backend.Limiter.Record.{IsCapacity-pos}
use uptime_service_backend.Paths.{ObjectsToSave}
use uptime_service_backend.Storage.{Readers, empty_submission}
use uptime_service_backend.Storage.Backends.Objects.{Bucket, Directory}
use uptime_service_backend.Storage.Backends.Databases.{Exec}
use uptime_service_backend.Storage.Backends.Save.{World, has_backend}
use uptime_service_backend.Submit.{HttpRequest, serve_http}
use uptime_service_backend.Submit.Answer.{Answers}
use uptime_service_backend.Server.{
  Opens, Server, start, initial_whitelist, submit, submits, stay, then_step,
}
use uptime_service_backend.Server.Run.{IsPathSafe, IsOrder, submit-Answers}

abbrev now : Instant
now = pos 63_000_000_100_000_000_000

abbrev http : HttpRequest
http = record {
  content_length = pos 2;
  body = lit "{}";
  body_fails = false;
  forwarded_for = [];
  remote_addr = lit "1.2.3.4";
}

abbrev config : AppConfig
config = record {
  network_name = lit "mainnet";
  gsheet_id = [];
  delegation_whitelist_list = [];
  delegation_whitelist_column = [];
  delegation_whitelist_disabled = true;
  verify_signature_disabled = false;
  aws = none;
  aws_keyspaces = none;
  local_file_system = some (record { path = lit "/data" });
  postgre_sql = none;
}

abbrev opens : Opens
opens = record { aws = λ c. true; keyspaces = λ c. true; postgresql = λ c. true; sheets = true }

-- No text is a numeral.
abbrev atoi : Bytes → Atoi
atoi s = bad (pos 0)

-- A spreadsheet that is never asked, and databases that keep nothing.
abbrev service : ℕ → Result Error (List (List Cell)) × ℕ
service n = (ok [], n)

abbrev nothing : Exec ℕ
nothing query values n = (none, n)

abbrev bucket : Bucket
bucket = record { head_fails = λ k. false; put_fails = λ k. false }

abbrev directory : Bytes → Directory
directory path = record {
  stat_fails = λ p. false;
  mkdir_fails = λ p. false;
  write_fails = λ p. false;
  join = λ p. path ++ lit "/" ++ p;
}

abbrev readers : Readers
readers = record { unmarshal_submission = λ b. some empty_submission; parse_time = λ t. some now }

abbrev world : World ℕ ℕ
world = record { bucket = []; keyspaces = 0; postgresql = 0; files = [] }

abbrev first : Server ℕ ℕ ℕ
first = record {
  app = record {
    submit_counter = new_attempt_counter (pos 120);
    whitelist = none;
    whitelist_disabled = true;
    verify_signature_disabled = false;
    network_id = 1;
  };
  is_ready = true;
  sheets = 0;
  world = world;
}

started : start libraries service opens atoi [] config 0 world ≡ ok first
unfolding start initial_whitelist has_backend set_requests_per_pk_hourly network_id lookup equal
started = refl

safe : IsPathSafe libraries
safe = record {
  no_slash = λ pk. pk_string-letters b'/' pk (omega arith);
  no_hyphen = λ pk. pk_string-letters b'-' pk (omega arith);
}

limit : IsCapacity (set_requests_per_pk_hourly atoi [])
unfolding set_requests_per_pk_hourly lookup max_capacity
limit = IsCapacity-pos _ (omega arith)

abbrev as_put : ObjectsToSave → ObjectsToSave
as_put objs = objs

ordered : IsOrder as_put
ordered a b = inl refl

abbrev second : Server ℕ ℕ ℕ
second =
    (submit libraries service bucket nothing nothing directory readers config as_put first http now
      now).1

submit-Answers_example :
    ((submit libraries service bucket nothing nothing directory readers config as_put second http
        now now).0
      ≡ (serve_http libraries second.app http now now).outcome)
    × Answers (serve_http libraries second.app http now now)
submit-Answers_example =
    submit-Answers libraries service bucket nothing nothing directory readers config as_put safe
      ordered opens atoi [] 0 world first second http now now limit started
      (then_step first first second (stay first) (submits first http now now))
