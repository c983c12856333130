-- ===== src/Server/Run.antt =====
-- The server that has started answers every submission, at any point of any run.
use mathlib.Core.Path.{subst}
use uptime_service_backend.Base.{
  ◌≡◌, ◌⊎◌, refl, ap, sym, true, not, Option, none, some, List, [], ◌∷◌, ◌++◌, inl, inr, Bool-cases,
  take,
}
use uptime_service_backend.Base.Text.{Bytes, lit}
use uptime_service_backend.Base.Dict.{Dict}
use uptime_service_backend.Base.Result.{
  Result, ok, err, >>=-eq-ok, >>-eq-ok_iff, refuse_if, ok-injective,
}
use uptime_service_backend.Clock.{Instant}
use uptime_service_backend.Clock.Civil.{format_utc}
use uptime_service_backend.Externals.{Externals}
use uptime_service_backend.Keys.{Pk, pk_string}
use uptime_service_backend.Config.{AppConfig}
use uptime_service_backend.Config.Interval.{Atoi, set_requests_per_pk_hourly}
use uptime_service_backend.Backoff.{Error, RetryError}
use uptime_service_backend.Whitelist.{Whitelist, WhitelistMVar, Cell, replace}
use uptime_service_backend.Whitelist.Refresh.{refresh-set}
use uptime_service_backend.Limiter.{IsValid, IsCapacity}
use uptime_service_backend.Limiter.Record.{new_attempt_counter-IsValid}
use uptime_service_backend.Paths.{ObjectsToSave}
use uptime_service_backend.Request.{get_block_data_hash}
use uptime_service_backend.Request.Payload.{check_required_fields-block}
use uptime_service_backend.Storage.{Readers, Prepared, object_to_save_to_submission}
use uptime_service_backend.Storage.Names.{Without, take-Without, format_utc-Without}
use uptime_service_backend.Storage.Roundtrip.{meta_path}
use uptime_service_backend.Storage.Total.{object_to_save_to_submission-returns}
use uptime_service_backend.Storage.Backends.Objects.{Bucket, Directory}
use uptime_service_backend.Storage.Backends.Databases.{Exec}
use uptime_service_backend.Storage.Backends.Save.{World, has_backend, save-returns}
use uptime_service_backend.Submit.{
  App, HttpRequest, Response, respond, ok_response, Served, serve_http,
}
use uptime_service_backend.Submit.Answer.{HasWhitelist, Answers, saves, refuses, serve_http-Answers}
use uptime_service_backend.Submit.Serve.{Accepted, serve_http-Accepted}
use uptime_service_backend.Submit.Row.{objects_to_save-two}
use uptime_service_backend.Server.{
  bad_aws, bad_keyspaces, bad_postgresql, no_backend, found_whitelist, Opens, open_if, Server,
  initial_whitelist, start, save_all, finish_call, submit, refresh_keys, Reaches, submits,
  refreshes, stay, then_step,
}

-- What the handler needs of the state.
pub record IsRunning {S K P : Type 0} (s : Server S K P) : Type 0 where
  pub valid : IsValid s.app.submit_counter
  pub whitelist : HasWhitelist s.app

module _ (ext : Externals) {S : Type 0} (service : S → Result Error (List (List Cell)) × S) where
  found_whitelist-set :
      (r : Option (Result RetryError Whitelist)) (s : S) (found : WhitelistMVar × S)
      → found_whitelist ext service r s ≡ ok found
      → (wl : Whitelist) × (found.0 ≡ some wl)
  unfolding replace
  found_whitelist-set none s found h = cc
  found_whitelist-set (some (err e)) s found h = cc
  found_whitelist-set (some (ok wl)) s found h =
      let same : (some wl, s) ≡ found = cc in (wl, ap (λ (f : WhitelistMVar × S). f.0) (sym same))

  initial_whitelist-HasWhitelist :
      (opens : Opens) (config : AppConfig) (s : S) (found : WhitelistMVar × S)
      → initial_whitelist ext service opens config s ≡ ok found
      → (config.delegation_whitelist_disabled ≡ true) ⊎ ((wl : Whitelist) × (found.0 ≡ some wl))
  unfolding initial_whitelist replace
  initial_whitelist-HasWhitelist opens config s found h =
      elim (Bool-cases config.delegation_whitelist_disabled) [
        | inl off ↦ inl off
        | inr on ↦ elim (Bool-cases opens.sheets) [
          | inl yes' ↦ inr (found_whitelist-set _ _ found (simp (on, yes') at h))
          | inr closed ↦ let h' = simp (on, closed) at h in cc
        ]
      ]

  start-IsRunning :
      {K P : Type 0} (opens : Opens) (atoi : Bytes → Atoi) (env : Dict Bytes) (config : AppConfig)
      (sheets : S) (world : World K P) (s : Server S K P)
      → IsCapacity (set_requests_per_pk_hourly atoi env)
      → start ext service opens atoi env config sheets world ≡ ok s
      → IsRunning s
  unfolding start
  start-IsRunning opens atoi env config sheets world s limit h =
      let (_, h1) = (>>-eq-ok_iff (open_if opens.aws config.aws bad_aws) _ s).0 h in
      let (_, h2) =
        (>>-eq-ok_iff (open_if opens.keyspaces config.aws_keyspaces bad_keyspaces) _ s).0 h1 in
      let (_, h3) =
        (>>-eq-ok_iff (open_if opens.postgresql config.postgre_sql bad_postgresql) _ s).0 h2 in
      let (_, h4) = (>>-eq-ok_iff (refuse_if (not (has_backend config)) no_backend) _ s).0 h3 in
      let (found, looked, h5) =
        >>=-eq-ok (initial_whitelist ext service opens config sheets) _ h4 in
      let set = initial_whitelist-HasWhitelist opens config sheets found looked in
      subst IsRunning (ok-injective _ s h5)
        (record { valid = new_attempt_counter-IsValid _ limit; whitelist = set })

-- Base58 text has none of the two bytes at which the path is split.
pub record IsPathSafe (ext : Externals) : Type 0 where
  pub no_slash : (pk : Pk) → Without b'/' (pk_string ext pk)
  pub no_hyphen : (pk : Pk) → Without b'-' (pk_string ext pk)

-- The loops over a map of two entries meet them in one order or in the other.
abbrev pub IsOrder : (ObjectsToSave → ObjectsToSave) → Type 0
IsOrder order =
    (a b : Bytes × Bytes) → (order (a ∷ b ∷ []) ≡ a ∷ b ∷ []) ⊎ (order (a ∷ b ∷ []) ≡ b ∷ a ∷ [])

module _ (ext : Externals) {S K P : Type 0} (service : S → Result Error (List (List Cell)) × S)
    (bucket : Bucket) (keyspaces : Exec K) (postgresql : Exec P) (directory : Bytes → Directory)
    (readers : Readers) (config : AppConfig) (order : ObjectsToSave → ObjectsToSave)
    (safe : IsPathSafe ext) (ordered : IsOrder order) where
  -- What an accepted call saves is read back.
  Accepted-read :
      (app : App) (r : HttpRequest) (t at : Instant) (objs : ObjectsToSave)
      → Accepted ext app r t at objs
      → (p : Prepared) × (object_to_save_to_submission readers (order objs) ≡ some p)
  Accepted-read app r t at objs a =
      let (block, found) = check_required_fields-block a.req a.admissible.complete in
      let (b, written, same) = objects_to_save-two ext a.req block r t objs found a.objects in
      let no_slash = format_utc-Without t in
      let (meta_first, block_first) =
        object_to_save_to_submission-returns readers (take 10 (format_utc t)) (format_utc t)
          (pk_string ext a.req.submitter) b (take-Without b'/' 10 (format_utc t) no_slash) no_slash
          (safe.no_slash a.req.submitter) (safe.no_hyphen a.req.submitter)
          (get_block_data_hash ext block ++ lit ".dat") block.decoded in
      rw same
        (elim (ordered
          (meta_path (take 10 (format_utc t)) (format_utc t) (pk_string ext a.req.submitter), b)
          (lit "blocks/" ++ (get_block_data_hash ext block ++ lit ".dat"), block.decoded)) [
            | inl e ↦ rw e meta_first
            | inr e ↦ rw e block_first
          ])

  -- An answer of the handler is sent, whatever Save does with what can be read back.
  finish_call-IsRunning :
      (s : Server S K P) (served : Served)
      → Answers served
      → ((objs : ObjectsToSave)
          → served.saved ≡ objs ∷ []
          → (p : Prepared) × (object_to_save_to_submission readers (order objs) ≡ some p))
      → IsValid served.counter
      → IsRunning s
      → ((finish_call ext service bucket keyspaces postgresql directory readers config order s
            served).0
          ≡ served.outcome)
        × IsRunning
            (finish_call ext service bucket keyspaces postgresql directory readers config order s
              served).1
  unfolding finish_call save_all
  finish_call-IsRunning s _ (refuses c answer bad) readable valid running =
      (refl, record { valid = valid; whitelist = running.whitelist })
  finish_call-IsRunning s _ (saves c objs) readable valid running =
      let (p, read) = readable objs refl in
      let (w, saved) =
        save-returns bucket keyspaces postgresql directory readers config (order objs) p read
          s.world in
      rw (saved, finish_call) (refl, record { valid = valid; whitelist = running.whitelist })

  Answers-outcome :
      (served : Served) → Answers served → (answer : Response) × (served.outcome ≡ respond answer)
  Answers-outcome _ (refuses c answer bad) = (answer, refl)
  Answers-outcome _ (saves c objs) = (ok_response, refl)

  -- A call on a running server is answered, and leaves it running.
  submit-IsRunning :
      (s : Server S K P) (r : HttpRequest) (t at : Instant)
      → IsRunning s
      → ((submit ext service bucket keyspaces postgresql directory readers config order s r t at).0
          ≡ (serve_http ext s.app r t at).outcome)
        × IsRunning
            (submit ext service bucket keyspaces postgresql directory readers config order s r t
              at).1
  unfolding submit
  submit-IsRunning s r t at running =
      let (answers, valid) = serve_http-Answers ext s.app r t at running.valid running.whitelist in
      finish_call-IsRunning s (serve_http ext s.app r t at) answers
        (λ objs one.
          Accepted-read s.app r t at objs (serve_http-Accepted ext s.app r t at objs [] one))
        valid running

  refresh_keys-IsRunning :
      (s : Server S K P)
      → IsRunning s
      → IsRunning
          (refresh_keys ext service bucket keyspaces postgresql directory readers config order s)
  unfolding refresh_keys
  refresh_keys-IsRunning s running = record {
    valid = running.valid;
    whitelist = elim running.whitelist [
      | inl off ↦ inl off
      | inr (wl, set) ↦ inr (refresh-set ext service s.app.whitelist s.sheets wl set)
    ];
  }

  Reaches-IsRunning :
      (s t : Server S K P)
      → Reaches ext service bucket keyspaces postgresql directory readers config order s t
      → IsRunning s
      → IsRunning t
  Reaches-IsRunning s _ (stay _) running = running
  Reaches-IsRunning s _ (then_step _ t _ run (submits _ r a b)) running =
      (submit-IsRunning t r a b (Reaches-IsRunning s t run running)).1
  Reaches-IsRunning s _ (then_step _ t _ run (refreshes _ on)) running =
      refresh_keys-IsRunning t (Reaches-IsRunning s t run running)

  -- After a start that succeeds, with a limit that `make` allows, and after any run of submissions and
  -- rounds of the refresh loop, a submission ends with the answer of the handler, which saves once
  -- and answers 200, or saves nothing and answers with another status: neither the handler nor Save
  -- panics. Base58 text has neither slash nor hyphen.
  pub submit-Answers :
      (opens : Opens) (atoi : Bytes → Atoi) (env : Dict Bytes) (sheets : S) (world : World K P)
      (first s : Server S K P) (r : HttpRequest) (t at : Instant)
      → IsCapacity (set_requests_per_pk_hourly atoi env)
      → start ext service opens atoi env config sheets world ≡ ok first
      → Reaches ext service bucket keyspaces postgresql directory readers config order first s
      → ((submit ext service bucket keyspaces postgresql directory readers config order s r t at).0
          ≡ (serve_http ext s.app r t at).outcome)
        × Answers (serve_http ext s.app r t at)
  submit-Answers opens atoi env sheets world first s r t at limit started run =
      let running =
        Reaches-IsRunning first s run
          (start-IsRunning ext service opens atoi env config sheets world first limit started) in
      (
        (submit-IsRunning s r t at running).0,
        (serve_http-Answers ext s.app r t at running.valid running.whitelist).0,
      )
