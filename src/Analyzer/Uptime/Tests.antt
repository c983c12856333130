-- ===== src/Analyzer/Uptime/Tests.antt =====
-- Runs of the uptime count on a listing with three submissions of one identity.
use uptime_service_backend.Base.{
  ℕ, ◌+◌, ◌*◌, ◌≡◌, refl, true, false, Option, none, some, List, [], ◌∷◌, arith, length,
}
use uptime_service_backend.Base.Result.{ok, err}
use uptime_service_backend.Base.Int.{pos, pos_part, neg_part, ◌+ℤ◌}
use uptime_service_backend.Base.Decimal.{itoa}
use uptime_service_backend.Storage.{split}
use uptime_service_backend.Base.Text.{Bytes, lit, equal}
use uptime_service_backend.Clock.{Instant, add, hour, minute}
use uptime_service_backend.Keys.{pk_string}
use uptime_service_backend.Request.{MetaToBeSaved}
use uptime_service_backend.Samples.{libraries, key}
use uptime_service_backend.Analyzer.{panics, Object, Libraries, get_submission_time}
use uptime_service_backend.Analyzer.Identity.{Identity, Settings, identity_of}
use uptime_service_backend.Analyzer.Uptime.{
  Floats, spacing, start_of, read_object, matches_identity, visit_page, visit_pages, get_uptime,
}
use uptime_service_backend.Analyzer.Uptime.Greedy.{greedy}
use uptime_service_backend.Analyzer.Uptime.Times.{times}
use uptime_service_backend.Analyzer.Uptime.Count.{CountIs, visit_pages-greedy}
use uptime_service_backend.Analyzer.Uptime.Most.{IsMost, percent_text, get_uptime-IsMost}
use uptime_service_backend.Analyzer.Uptime.Portless.{IsTwice, get_uptime-panics}

abbrev start : Instant
start = pos 63_000_000_000_000_000_000

-- A text is read as the time so many hours after the start as it is long.
abbrev hours : Bytes → Option Instant
hours [] = none
hours (x ∷ s) = some (pos (63_000_000_000_000_000_000 + length (x ∷ s) * hour))

abbrev empty : MetaToBeSaved
empty = record {
  created_at = [];
  peer_id = [];
  snark_work = none;
  remote_addr = lit "1.2.3.4";
  submitter = key;
  block_hash = [];
  graphql_control_port = pos 0;
  built_with_commit_sha = [];
}

abbrev lib : Libraries
lib = record {
  md5_hex = λ s. s;
  unmarshal_meta = λ s m. some (record m { created_at = s; graphql_control_port = pos (length s) });
  parse_time = hours;
  compile_regexp = λ s. some (λ key. true);
}

abbrev with_port : Identity
with_port = record {
  id = lit "1";
  public_key = pk_string libraries key;
  public_ip = lit "1.2.3.4";
  graph_ql_port = some (lit "3");
  uptime = [];
}

abbrev config : Settings
config = record {
  period = record { start = start; end = add start (pos (48 * hour)); interval = pos (48 * hour) };
  ignore_ips = false;
}

abbrev object : Bytes → Object
object contents = record {
  key = lit "a/submissions/d/2024-01-02T03:04:05Z-k.json";
  contents = some contents;
}

abbrev objects : List Object
objects = object (lit "abc") ∷ object (lit "abcde") ∷ object (lit "xyz") ∷ []

abbrev floats : Floats ℕ
floats = record {
  whole_hours = λ d. pos 48;
  percent = λ a b. a;
  exceeds_hundred = λ a. false;
  hundred = 100;
  two_decimals = λ a. a ∷ [];
}

visit_pages-greedy_example :
    CountIs
      (λ ts n. n ≡ greedy (spacing (pos 15)) none ts)
      (times lib libraries config with_port (λ key. true) (some objects ∷ []) empty)
      (visit_pages lib libraries config with_port
        (λ key. true)
        (spacing (pos 15))
        (some objects ∷ [])
        (start_of empty))
visit_pages-greedy_example =
    visit_pages-greedy lib libraries config with_port (λ key. true) (spacing (pos 15))
      (some objects ∷ []) empty refl

abbrev three_hours : Instant
three_hours = pos (63_000_000_000_000_000_000 + 3 * hour)

times_read :
    times lib libraries config with_port (λ key. true) (some objects ∷ []) empty
    ≡ ok (
      record empty { created_at = lit "xyz"; graphql_control_port = pos 3 },
      three_hours ∷ three_hours ∷ [],
    )
unfolding read_object get_submission_time split pos_part neg_part add ◌+ℤ◌ matches_identity equal
    pk_string itoa
times_read = refl

get_uptime-IsMost_example :
    (n : ℕ) × IsMost (pos (10 * minute)) (three_hours ∷ three_hours ∷ []) n
    × (get_uptime lib libraries config with_port floats (pos 15) empty (some objects ∷ [])
        ≡ ok (record with_port { uptime = percent_text floats n (4 * 48) }))
unfolding pos_part neg_part
get_uptime-IsMost_example =
    get_uptime-IsMost lib libraries config with_port (λ key. true) floats 15 48 start empty
      (some objects ∷ [])
      (
        record empty { created_at = lit "xyz"; graphql_control_port = pos 3 },
        three_hours ∷ three_hours ∷ [],
      )
      (omega arith) (omega arith) refl (omega arith) refl refl times_read (omega arith)

abbrev second : MetaToBeSaved
second = record empty { created_at = lit "abc"; graphql_control_port = pos 3 }

twice : IsTwice empty second
twice = record { same_submitter = refl; same_addr = refl; portless = refl; with_port = refl }

second_read :
    read_object lib libraries config
      (identity_of lib libraries config empty)
      (λ key. true)
      (object (lit "abc"))
      empty
    ≡ ok (some second)
unfolding read_object get_submission_time split pos_part neg_part add ◌+ℤ◌
second_read = refl

get_uptime-panics_example :
    get_uptime lib libraries config
      (identity_of lib libraries config empty)
      floats
      (pos 15)
      empty
      (some objects ∷ [])
    ≡ err panics
unfolding visit_page
get_uptime-panics_example =
    get_uptime-panics lib libraries config floats (pos 15) (λ key. true) [] (object (lit "abc"))
      (object (lit "abcde") ∷ object (lit "xyz") ∷ []) [] empty empty second (start_of empty) refl
      refl refl refl second_read twice
