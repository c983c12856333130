-- ===== src/Submit/Serve.antt =====
-- What the handler does: whom it saves for, what it leaves alone, and that it always answers.
use uptime_service_backend.Base.{
  ◌≡◌, ◌⊎◌, refl, ap, ◌∙◌, true, false, some, List, [], ◌∷◌, inl, inr, arith, Bool-cases,
  Option-cases, ltb, length,
}
use uptime_service_backend.Base.Int.{pos, ◌≤ℤ◌, ◌<ℤ◌}
use uptime_service_backend.Base.Text.{lit}
use uptime_service_backend.Base.Panics.{Returns-inv}
use uptime_service_backend.Base.Result.{Result, ok, err}
use uptime_service_backend.Clock.{Instant}
use uptime_service_backend.Clock.Civil.{format_utc}
use uptime_service_backend.Clock.Layout.{format_utc-length}
use uptime_service_backend.Externals.{Externals}
use uptime_service_backend.Request.{SubmitRequest}
use uptime_service_backend.Request.Meta.{HasJsonSnark, make_meta_to_be_saved-some}
use uptime_service_backend.Request.Payload.{check_required_fields-block}
use uptime_service_backend.Limiter.{AttemptCounter, record_attempt, IsValid}
use uptime_service_backend.Limiter.Record.{recent_attempts, record_attempt_correct}
use uptime_service_backend.Paths.{ObjectsToSave, make_paths}
use uptime_service_backend.Submit.{
  App, HttpRequest, respond, ok_response, admit, objects_to_save, accept, serve_http, refused,
  client_address,
}
use uptime_service_backend.Submit.Admission.{IsAdmissible, admit-IsAdmissible}

pub Result-cases :
    {E A : Type 0} (r : Result E A) → ((a : A) × (r ≡ ok a)) ⊎ ((e : E) × (r ≡ err e))
Result-cases (ok a) = inl (a, refl)
Result-cases (err e) = inr (e, refl)

module _ (ext : Externals) (app : App) (r : HttpRequest) (t at : Instant) where
  -- What has to have happened for a call to save.
  pub record Accepted (objs : ObjectsToSave) : Type 0 where
    pub req : SubmitRequest
    pub counter : AttemptCounter
    pub admissible : IsAdmissible ext app r t req
    pub granted : record_attempt app.submit_counter req.submitter at ≡ some (true, counter)
    pub objects : objects_to_save ext req r t ≡ ok objs
    pub served :
        serve_http ext app r t at
        ≡ record { outcome = respond ok_response; counter = counter; saved = objs ∷ [] }

  -- A call that saves anything was admissible and granted by the attempt counter, and it saves once,
  -- the objects of its request, and answers 200.
  pub serve_http-Accepted :
      (objs : ObjectsToSave) (more : List ObjectsToSave)
      → (serve_http ext app r t at).saved ≡ objs ∷ more
      → Accepted objs
  unfolding serve_http accept
  serve_http-Accepted objs more h = elim (Result-cases (admit ext app r t)) [
    | inr (stop, refused) ↦ absurd (ground (arith, refused))
    | inl (req, admitted) ↦
        elim (Option-cases (record_attempt app.submit_counter req.submitter at)) [
          | inl panics ↦ absurd (ground (arith, admitted, panics))
          | inr ((b, counter), recorded) ↦ elim (Bool-cases b) [
            | inr limited ↦ absurd (ground (arith, admitted, recorded, limited))
            | inl granted ↦ elim (Result-cases (objects_to_save ext req r t)) [
              | inr (stop, failed) ↦ absurd (ground (arith, admitted, recorded, granted, failed))
              | inl (objs', objects) ↦
                  let e : objs' ≡ objs = ground (arith, admitted, recorded, granted, objects) in
                  record {
                    req = req;
                    counter = counter;
                    admissible = (admit-IsAdmissible ext app r t req).0 admitted;
                    granted = recorded ∙ ap (λ x. some (x, counter)) granted;
                    objects = objects ∙ ap ok e;
                    served = ground (arith, admitted, recorded, granted, objects, e);
                  }
            ]
          ]
        ]
  ]

  -- A call of which no request is admissible uses up no attempt and saves nothing.
  pub serve_http-refused :
      ((req : SubmitRequest) → ¬ IsAdmissible ext app r t req)
      → ((serve_http ext app r t at).counter ≡ app.submit_counter)
        × ((serve_http ext app r t at).saved ≡ [])
  unfolding serve_http
  serve_http-refused none_fits = elim (Result-cases (admit ext app r t)) [
    | inl (req, admitted) ↦ absurd (none_fits req ((admit-IsAdmissible ext app r t req).0 admitted))
    | inr (stop, refused) ↦ rw (refused, serve_http) (refl, refl)
  ]

-- The objects of an admissible request can be made.
pub objects_to_save-ok :
    (ext : Externals) (app : App) (r : HttpRequest) (t : Instant) (req : SubmitRequest)
    → IsAdmissible ext app r t req
    → HasJsonSnark ext req
    → (objs : ObjectsToSave) × (objects_to_save ext req r t ≡ ok objs)
unfolding objects_to_save make_paths
objects_to_save-ok ext app r t req a json =
    let (block, b) = check_required_fields-block req a.complete in
    let (meta, m) = make_meta_to_be_saved-some ext req block (client_address ext r) json in
    let long : ltb (length (format_utc t)) 10 ≡ false = ground (arith, format_utc-length t) in
    elim (Result-cases (objects_to_save ext req r t)) [
      | inl found ↦ found
      | inr (stop, failed) ↦ let failed' = simp (b, long, m) at failed in cc
    ]

module _ (ext : Externals) (app : App) (r : HttpRequest) (t at : Instant)
    (req : SubmitRequest) where
  -- On a valid counter (one whose limit `make` allows and whose heaps are ordered), and with snark
  -- work that is JSON, an admissible request is saved and answered 200 if its key has fewer recent
  -- attempts than the limit, and is otherwise answered 429 with nothing saved.
  pub serve_http-admissible :
      IsAdmissible ext app r t req
      → HasJsonSnark ext req
      → IsValid app.submit_counter
      → ((pos (recent_attempts app.submit_counter req.submitter at)
            <ℤ app.submit_counter.max_attempt)
          × (objs : ObjectsToSave) × Accepted ext app r t at objs)
        ⊎ ((app.submit_counter.max_attempt
              ≤ℤ pos (recent_attempts app.submit_counter req.submitter at))
            × ((serve_http ext app r t at).saved ≡ [])
            × ((serve_http ext app r t at).outcome
                ≡ refused ext 429 (lit "Too many requests per hour")))
  unfolding serve_http accept
  serve_http-admissible a json v =
      let admitted = (admit-IsAdmissible ext app r t req).1 a in
      let (objs, objects) = objects_to_save-ok ext app r t req a json in
      let ((b, counter), recorded, s) =
        Returns-inv (record_attempt_correct app.submit_counter req.submitter at v) in
      elim (Bool-cases b) [
        | inl granted ↦
            let recorded' = recorded ∙ ap (λ x. some (x, counter)) granted in
            inl (
              ground (arith, s.answer, granted),
              objs,
              record {
                req = req;
                counter = counter;
                admissible = a;
                granted = recorded';
                objects = objects;
                served = rw (admitted, serve_http) (rw (recorded', accept) (rw (objects, accept)));
              },
            )
        | inr limited ↦
            let recorded' = recorded ∙ ap (λ x. some (x, counter)) limited in
            inr (
              ground (arith, s.answer, limited),
              rw (admitted, serve_http) (rw (recorded', accept)),
              rw (admitted, serve_http) (rw (recorded', accept)),
            )
      ]
