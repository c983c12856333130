-- ===== src/Analyzer/Report/Tests.antt =====
-- Runs of the whole analyzer, in which the second identity is measured or is not.
use uptime_service_backend.Base.{◌≡◌, ◌↔◌, refl, true, none, some, [], ◌∷◌, ◌++◌, arith, take}
use uptime_service_backend.Base.Result.{ok}
use uptime_service_backend.Base.Int.{pos}
use uptime_service_backend.Base.Text.{lit, has_prefix}
use uptime_service_backend.Clock.Civil.{civil, format_utc}
use uptime_service_backend.Keys.{pk_string}
use uptime_service_backend.Samples.{libraries, key}
use uptime_service_backend.Analyzer.{fatal, get_submission_time}
use uptime_service_backend.Config.Env.{getenv}
use uptime_service_backend.Paths.{FilePaths, make_paths}
use uptime_service_backend.Base.Text.{equal}
use uptime_service_backend.Base.Dict.{lookup}
use uptime_service_backend.Analyzer.Report.{
  in_uptime, PeriodTexts, main, output_file_name, open_output, submissions_prefix, heading, line,
  get_bucket_name,
}
use uptime_service_backend.Analyzer.Report.Loop.{text, both}
use uptime_service_backend.Analyzer.Report.Whole.{main-uploads, main-stops}
use uptime_service_backend.Analyzer.Report.Listed.{saved_key, make_paths-listed}
use uptime_service_backend.Analyzer.Report.Samples.{
  now, texts, lib, failing, working, system, loaders, empty_meta, empty, env, config, loads,
  with_port, found, floats, measured, measured_two, measured_three, not_listed,
}

main-uploads_example :
    main (system working) lib libraries floats loaders now texts empty empty_meta env ≡ record {
      outputs = both config (text config (texts config) (measured 2 ∷ measured 3 ∷ []));
      uploaded = some (record {
        bucket = lit "b";
        key = lit "k/summary_2024-01-02T00:00:00-2024-01-02T12:00:00.csv";
        body = text config (texts config) (measured 2 ∷ measured 3 ∷ []);
      });
      failure = none;
    }
unfolding output_file_name open_output getenv lookup equal
main-uploads_example =
    main-uploads (system working) (λ c msg. refl) lib libraries floats loaders now texts empty
      empty_meta env env config loads refl (some []) (with_port 2 ∷ with_port 3 ∷ [])
      (measured 2 ∷ measured 3 ∷ []) refl refl found (measured_two, (measured_three, tt)) refl refl

main-stops_example :
    main (system failing) lib libraries floats loaders now texts empty empty_meta env ≡ record {
      outputs = both config (text config (texts config) (measured 2 ∷ []));
      uploaded = none;
      failure = some (in_uptime fatal);
    }
unfolding open_output
main-stops_example =
    main-stops (system failing) (λ c msg. refl) lib libraries floats loaders now texts empty
      empty_meta env env config loads refl (with_port 2 ∷ []) [] (measured 2 ∷ []) (with_port 3)
      fatal refl found (measured_two, tt) not_listed

abbrev today : PeriodTexts
today = record (texts config) { day = take 10 (format_utc now) }

abbrev paths : FilePaths
paths = record {
  meta =
      lit "submissions/"
      ++ take 10 (format_utc now)
      ++ lit "/"
      ++ format_utc now
      ++ lit "-"
      ++ pk_string libraries key
      ++ lit ".json";
  block = lit "blocks/h.dat";
}

made : make_paths libraries now (lit "h") key ≡ some paths
unfolding make_paths format_utc
made = refl

make_paths-listed_example :
    ((has_prefix (saved_key config paths.meta) (submissions_prefix config today) ≡ true)
      ↔ (take 10 (format_utc now) ≡ take 10 (format_utc now)))
    × (get_submission_time lib (saved_key config paths.meta) ≡ ok (pos 63_000_000_001_000_000_000))
unfolding civil format_utc pk_string
make_paths-listed_example =
    make_paths-listed libraries lib config today now (pos 63_000_000_001_000_000_000) 1997 (lit "h")
      key paths made refl (omega arith) refl (ground arith) (ground arith) refl

-- The text of a report, with and without addresses.
report_text :
    text config (texts config) (measured 2 ∷ [])
    ≡ lit "Period start; 2024-01-02 00:00:00 +0000 UTC;"
      ++ 10 ∷ []
      ++ lit "Period end; 2024-01-02 12:00:00 +0000 UTC;"
      ++ 10 ∷ []
      ++ lit "Interval; 12h0m0s;"
      ++ 10 ∷ []
      ++ lit "public key; public ip; uptime (%)"
      ++ 10 ∷ []
      ++ (pk_string libraries key ++ lit "; 1.2.3.4; 1" ++ 10 ∷ [])
unfolding heading line pk_string
report_text = refl

bucket_name : get_bucket_name config ≡ lit "1-uptime-service-backend"
unfolding get_bucket_name
bucket_name = refl
