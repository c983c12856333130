-- ===== src/Analyzer/Report/Whole.antt =====
-- src/cmd/itn_uptime_analyzer/main_itn_uptime_analyzer.go: what a whole run puts out.
use uptime_service_backend.Base.{
  ◌+◌, ◌≡◌, refl, sym, ap, ◌∙◌, Bool, true, false, Option, none, some, List, [], ◌∷◌, ◌++◌, length,
  inl, inr, Bool-cases,
}
use mathlib.Core.Path.{subst}
use uptime_service_backend.Base.Result.{ok, err, ok-injective, AllOk}
use uptime_service_backend.Base.Int.{pos}
use uptime_service_backend.Base.Text.{Bytes, lit, is_empty}
use uptime_service_backend.Base.Dict.{Dict}
use uptime_service_backend.Clock.{Instant}
use uptime_service_backend.Config.Env.{getenv}
use uptime_service_backend.Externals.{Externals}
use uptime_service_backend.Request.{MetaToBeSaved}
use uptime_service_backend.Analyzer.{Halt, Libraries}
use uptime_service_backend.Analyzer.Identity.{Identity, create_identities}
use uptime_service_backend.Analyzer.Uptime.{Floats, get_uptime}
use uptime_service_backend.Analyzer.Options.{AppConfig, Loaders, load_env}
use uptime_service_backend.Analyzer.Options.Usable.{IsFull, Loaded, load_env-Loaded}
use uptime_service_backend.Analyzer.Report.{
  in_uptime, PeriodTexts, System, settings_of, heading, output_file_name, created, open_output,
  has_output, upload, after_loop, listing, measure, main,
}
use uptime_service_backend.Analyzer.Report.Loop.{
  text, both, Measured, report-all, report-stops, measure-identities,
}

module _ (system : System) (appends : (c msg : Bytes) → system.write c msg ≡ c ++ msg) where
  created-file : (b : Bool) (file : Option Bytes) → created b ≡ ok file → file ≡ some []
  created-file true file h = sym (ok-injective (some []) file h)
  created-file false file h = cc

  -- A key for the upload calls for a file.
  open_output-file :
      (config : AppConfig) (file : Option Bytes)
      → is_empty config.output.s3_key ≡ false
      → open_output system config ≡ ok file
      → file ≡ some []
  unfolding open_output
  open_output-file config file keyed h = elim (Bool-cases (is_empty config.output.local)) [
    | inl e ↦
        let eq : open_output system config ≡ created system.create_temp = simp (e, keyed) refl in
        created-file system.create_temp file (sym eq ∙ h)
    | inr e ↦
        let local = config.output.local in
        let eq : open_output system config ≡ created (system.create local) = simp (e, keyed) refl in
        created-file (system.create local) file (sym eq ∙ h)
  ]

  upload-both :
      (config : AppConfig) (texts : PeriodTexts) (body : Bytes)
      → is_empty config.output.s3_key ≡ false
      → system.seeks ≡ true
      → system.puts config.output.s3_bucket
          (config.output.s3_key ++ lit "/" ++ output_file_name texts)
          body
        ≡ true
      → upload system config texts (both config body) ≡ record {
        outputs = both config body;
        uploaded = some (record {
          bucket = config.output.s3_bucket;
          key = config.output.s3_key ++ lit "/" ++ output_file_name texts;
          body = body;
        });
        failure = none;
      }
  unfolding upload
  upload-both config texts body keyed seeks puts = simp (keyed, seeks, puts) refl

  module _ (lib : Libraries) (ext : Externals) {F : Type 0} (floats : Floats F) (loaders : Loaders)
      (now : Instant) (texts : AppConfig → PeriodTexts) (empty_config : AppConfig)
      (empty : MetaToBeSaved) (env env' : Dict Bytes) (config : AppConfig)
      (loaded : load_env loaders now empty_config env ≡ ok (config, env'))
      (aws : system.loads_aws env' config.aws.region ≡ true) where
    main-measure :
        (file : Option Bytes)
        → open_output system config ≡ ok file
        → has_output system config file ≡ true
        → main system lib ext floats loaders now texts empty_config empty env
          ≡ measure system lib ext floats empty config (texts config) file
    unfolding main
    main-measure file opened sunk = rw (loaded, main) (rw aws (rw opened (rw sunk refl)))

    env-IsFull : is_empty (getenv env (lit "CONFIG_FILE")) ≡ true → IsFull loaders now config
    env-IsFull from_env =
        let from : Bool = is_empty (getenv env (lit "CONFIG_FILE")) in
        subst (λ b. Loaded loaders now b config) from_env
          (subst (AllOk λ (r : AppConfig × Dict Bytes). Loaded loaders now from r.0) loaded
            (load_env-Loaded loaders now empty_config env))

    env-keyed :
        is_empty (getenv env (lit "CONFIG_FILE")) ≡ true → is_empty config.output.s3_key ≡ false
    env-keyed from_env = let full = env-IsFull from_env in sym full.usable.both ∙ full.bucket

    abbrev key : Bytes
    key = config.output.s3_key ++ lit "/" ++ output_file_name (texts config)

    -- Where the configuration is read from the environment, with no CONFIG_FILE, the AWS
    -- configuration loads, the output file is created and takes all that is written, the identities
    -- are found and each is measured, and the file can be read again and is accepted by the bucket,
    -- the program ends without a failure: it has uploaded, under the S3 key and the name of the
    -- period, exactly the heading and a line for each identity, in the order in which they were
    -- found, and has put the same text in its file and, if that is asked for, printed it.
    pub main-uploads :
        (file : Option Bytes) (xs ys : List Identity)
        → is_empty (getenv env (lit "CONFIG_FILE")) ≡ true
        → open_output system config ≡ ok file
        → create_identities lib ext
            (settings_of config)
            empty
            (listing system lib ext floats empty config (texts config) 0)
          ≡ ok xs
        → Measured system lib ext floats empty config (texts config) 1 xs ys
        → system.seeks ≡ true
        → system.puts config.output.s3_bucket key (text config (texts config) ys) ≡ true
        → main system lib ext floats loaders now texts empty_config empty env ≡ record {
          outputs = both config (text config (texts config) ys);
          uploaded = some (record {
            bucket = config.output.s3_bucket;
            key = key;
            body = text config (texts config) ys;
          });
          failure = none;
        }
    unfolding has_output
    main-uploads file xs ys from_env opened found measured seeks puts =
        let keyed = env-keyed from_env in
        let is_file = open_output-file config file keyed opened in
        main-measure (some []) (rw (← is_file) opened) refl
        ∙ measure-identities system appends lib ext floats empty config (texts config) xs found
        ∙ ap (after_loop system config (texts config)) (
            report-all system appends lib ext floats empty config (texts config) 1 xs ys
              ((heading config (texts config)).0 ++ (heading config (texts config)).1) measured)
        ∙ upload-both config (texts config) (text config (texts config) ys) keyed seeks puts

    -- Where the output file is created and takes all that is written, the identities are found,
    -- those up to one of them are measured and that one is not, the program ends by what GetUptime
    -- ended with: it has put out the heading and the lines of the identities before that one, and
    -- uploads nothing.
    pub main-stops :
        (front rest ys : List Identity) (x : Identity) (h : Halt)
        → open_output system config ≡ ok (some [])
        → create_identities lib ext
            (settings_of config)
            empty
            (listing system lib ext floats empty config (texts config) 0)
          ≡ ok (front ++ x ∷ rest)
        → Measured system lib ext floats empty config (texts config) 1 front ys
        → get_uptime lib ext
            (settings_of config)
            x
            floats
            (pos 15)
            empty
            (listing system lib ext floats empty config (texts config) (1 + length front))
          ≡ err h
        → main system lib ext floats loaders now texts empty_config empty env ≡ record {
          outputs = both config (text config (texts config) ys);
          uploaded = none;
          failure = some (in_uptime h);
        }
    unfolding has_output
    main-stops front rest ys x h opened found measured stops =
        main-measure (some []) opened refl
        ∙ measure-identities system appends lib ext floats empty config (texts config)
            (front ++ x ∷ rest) found
        ∙ ap (after_loop system config (texts config)) (
            report-stops system appends lib ext floats empty config (texts config) 1 front rest ys
              ((heading config (texts config)).0 ++ (heading config (texts config)).1) measured x h
              stops)
