-- ===== src/Server.antt =====
-- src/cmd/delegation_backend/main_bpu.go, src/delegation_backend/health.go and s3_options.go: how
-- the backend starts, and what its handlers and its refresh loop do to the state that they share.
pub mod Run
mod Tests
use uptime_service_backend.Base.{
  ℕ, ◌≡◌, Bool, true, false, not, Option, none, some, List, [], ◌∷◌, ◌++◌, if◌then◌else◌,
}
use uptime_service_backend.Base.Int.{ℤ, pos}
use uptime_service_backend.Base.Text.{Bytes, lit, equal, is_empty}
use uptime_service_backend.Base.Dict.{Dict}
use uptime_service_backend.Base.Result.{Result, ok, err, ◌>>=◌, ◌>>◌, refuse_if}
use uptime_service_backend.Clock.{Instant}
use uptime_service_backend.Externals.{Externals}
use uptime_service_backend.Config.{
  AppConfig, AwsConfig, AwsKeyspacesConfig, PostgreSqlConfig, network_id,
}
use uptime_service_backend.Config.Env.{getenv}
use uptime_service_backend.Config.Interval.{Atoi, set_requests_per_pk_hourly}
use uptime_service_backend.Backoff.{Error, RetryError}
use uptime_service_backend.Whitelist.{
  Whitelist, WhitelistMVar, Cell, replace, retrieve_whitelist, refresh,
}
use uptime_service_backend.Limiter.{new_attempt_counter}
use uptime_service_backend.Paths.{ObjectsToSave}
use uptime_service_backend.Storage.{Readers}
use uptime_service_backend.Storage.Backends.Objects.{Bucket, Directory}
use uptime_service_backend.Storage.Backends.Databases.{Exec}
use uptime_service_backend.Storage.Backends.Save.{World, has_backend, save}
use uptime_service_backend.Submit.{
  App, HttpRequest, Response, Stop, respond, panic, Served, serve_http,
}

-- The options of the S3 client that the environment may set.
pub record S3Options : Type 0 where
  pub base_endpoint : Option Bytes
  pub use_path_style : Bool

pub s3_options_from_env : Dict Bytes → S3Options → S3Options
s3_options_from_env env o =
    let endpoint = getenv env (lit "AWS_ENDPOINT_URL_S3") in
    let styled = equal (getenv env (lit "AWS_S3_FORCE_PATH_STYLE")) (lit "1") in
    record {
      base_endpoint = if is_empty endpoint then o.base_endpoint else some endpoint;
      use_path_style = if styled then true else o.use_path_style;
    }

-- The body ends with the line feed of json.Encoder.
pub health : Bool → Response
health true = record { status = 200; body = lit "{\"status\":\"ok\"}" ++ 10 ∷ [] }
health false = record { status = 503; body = lit "{\"status\":\"unavailable\"}" ++ 10 ∷ [] }

-- Why the program stops at its start.
pub data StartError : Type 0 where
  bad_aws bad_keyspaces bad_postgresql no_backend bad_sheets no_whitelist panics : StartError

-- Whether the libraries open what main asks of them.
pub record Opens : Type 0 where
  pub aws : AwsConfig → Bool
  pub keyspaces : AwsKeyspacesConfig → Bool
  pub postgresql : PostgreSqlConfig → Bool
  pub sheets : Bool

-- A client is opened if its backend is configured.
abbrev pub open_if :
    {A : Type 0} → (A → Bool) → Option A → StartError → Result StartError (Unit {0})
open_if opens none e = ok tt
open_if opens (some config) e = refuse_if (not (opens config)) e

-- What the goroutines share: the app, the spreadsheet service, and what is stored.
pub record Server (S K P : Type 0) : Type 0 where
  pub app : App
  pub is_ready : Bool
  pub sheets : S
  pub world : World K P

module _ (ext : Externals) {S : Type 0} (service : S → Result Error (List (List Cell)) × S) where
  abbrev pub found_whitelist :
      Option (Result RetryError Whitelist) → S → Result StartError (WhitelistMVar × S)
  found_whitelist none s = err panics
  found_whitelist (some (err _)) s = err no_whitelist
  found_whitelist (some (ok wl)) s = ok (replace none wl, s)

  -- The whitelist at the start: one request, which must succeed.
  pub initial_whitelist : Opens → AppConfig → S → Result StartError (WhitelistMVar × S)
  initial_whitelist opens config s =
      let (r, s') = retrieve_whitelist ext service (pos 1) s in
      if config.delegation_whitelist_disabled
      then ok (none, s)
      else if opens.sheets
      then found_whitelist r s'
      else err bad_sheets

  -- main up to ListenAndServe.
  pub start :
      {K P : Type 0}
      → Opens
      → (Bytes → Atoi)
      → Dict Bytes
      → AppConfig
      → S
      → World K P
      → Result StartError (Server S K P)
  start opens atoi env config s world = do
    open_if opens.aws config.aws bad_aws
    open_if opens.keyspaces config.aws_keyspaces bad_keyspaces
    open_if opens.postgresql config.postgre_sql bad_postgresql
    refuse_if (not (has_backend config)) no_backend
    found ← initial_whitelist opens config s
    ok (record {
      app = record {
        submit_counter = new_attempt_counter (set_requests_per_pk_hourly atoi env);
        whitelist = found.0;
        whitelist_disabled = config.delegation_whitelist_disabled;
        verify_signature_disabled = config.verify_signature_disabled;
        network_id = network_id config.network_name;
      };
      is_ready = true;
      sheets = found.1;
      world = world;
    })

  module _ {K P : Type 0} (bucket : Bucket) (keyspaces : Exec K) (postgresql : Exec P)
      (directory : Bytes → Directory) (readers : Readers) (config : AppConfig)
      (order : ObjectsToSave → ObjectsToSave) where
    -- Save, for what a call saves; `order` is the order in which the loops meet the entries of the
    -- map.
    pub save_all : List ObjectsToSave → World K P → Option (World K P)
    save_all [] w = some w
    save_all (objs ∷ more) w =
        elim (save bucket keyspaces postgresql directory readers config (order objs) w) [
          | none ↦ none
          | some w' ↦ save_all more w'
        ]

    -- A call writes its answer after Save has returned. A panic of Save is given with what was
    -- stored before it.
    pub finish_call : Server S K P → Served → Stop × Server S K P
    finish_call s served =
        let app = record s.app { submit_counter = served.counter } in
        elim (save_all served.saved s.world) [
          | none ↦ (panic, record s { app = app })
          | some w ↦ (served.outcome, record s { app = app; world = w })
        ]

    -- A call of /v1/submit.
    pub submit : Server S K P → HttpRequest → Instant → Instant → Stop × Server S K P
    submit s r submitted_at attempt_at =
        finish_call s (serve_http ext s.app r submitted_at attempt_at)

    -- A round of the refresh loop.
    pub refresh_keys : Server S K P → Server S K P
    refresh_keys s =
        let (wl, sheets) = refresh ext service s.app.whitelist s.sheets in
        record s { app = record s.app { whitelist = wl }; sheets = sheets }

    -- One step of the running server: a submission, or a round of the loop, which runs unless the
    -- whitelist is disabled. The other handlers change nothing.
    pub data Step : Server S K P → Server S K P → Type 0 where
      submits :
          (s : Server S K P) (r : HttpRequest) (submitted_at attempt_at : Instant)
          → Step s (submit s r submitted_at attempt_at).1
      refreshes : (s : Server S K P) → s.app.whitelist_disabled ≡ false → Step s (refresh_keys s)

    pub data Reaches : Server S K P → Server S K P → Type 0 where
      stay : (s : Server S K P) → Reaches s s
      then_step : (s t u : Server S K P) → Reaches s t → Step t u → Reaches s u
