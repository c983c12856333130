-- ===== src/Submit/Answer.antt =====
-- src/delegation_backend/submit.go: every call of the handler ends with an answer.
use mathlib.Core.Path.{subst}
use uptime_service_backend.Base.{
  ◌≢◌, not, ◌||◌, ◌≡◌, ◌⊎◌, refl, ap, ◌∙◌, Bool, true, false, ◌==◌, Option, none, some, [], ◌∷◌,
  inl, inr, arith, Bool-cases, Option-cases, ltb, length,
}
use uptime_service_backend.Base.Text.{lit}
use uptime_service_backend.Base.Panics.{Returns-inv}
use uptime_service_backend.Base.Result.{Result, ok, err, ◌>>=◌, refuse_if, or_fail, refuse_if-eq-ok}
use uptime_service_backend.Clock.{Instant}
use uptime_service_backend.Clock.Civil.{format_utc}
use uptime_service_backend.Clock.Layout.{format_utc-length}
use uptime_service_backend.Externals.{Externals}
use uptime_service_backend.Request.{SubmitRequest, check_required_fields, make_meta_to_be_saved}
use uptime_service_backend.Request.Decode.{unmarshal_request}
use uptime_service_backend.Request.Payload.{check_required_fields-block, make_sign_payload-payload}
use uptime_service_backend.Limiter.{AttemptCounter, IsValid}
use uptime_service_backend.Limiter.Record.{record_attempt_correct}
use uptime_service_backend.Paths.{ObjectsToSave, make_paths}
use uptime_service_backend.Submit.{
  App, HttpRequest, Response, Stop, respond, panic, ok_response, Served, admit, objects_to_save,
  accept, serve_http, refused, client_address, error_response, is_unknown, same_length,
  read_all_limited, check_content_length, read_body, check_request, check_whitelist,
  check_created_at, check_signature,
}
use uptime_service_backend.Whitelist.{Whitelist}
use uptime_service_backend.Base.Dict.{lookup}
use uptime_service_backend.Submit.Admission.{admit-IsAdmissible}
use uptime_service_backend.Submit.Serve.{Result-cases}

-- An answer that is not a panic, and not the status 200.
abbrev IsRefusal : Stop → Type 0
IsRefusal panic = ⊥
IsRefusal (respond r) = (r.status == 200) ≡ false

-- What holds of the error of a result, if it is one.
abbrev AllErr {ℓ} : {A : Type ℓ} → Result Stop A → Type 0
AllErr (ok a) = Unit
AllErr (err stop) = IsRefusal stop

AllErr-bind {ℓ κ} :
    {A : Type ℓ} {B : Type κ} (m : Result Stop A) (f : A → Result Stop B)
    → AllErr m
    → ((a : A) → m ≡ ok a → AllErr (f a))
    → AllErr (m >>= f)
AllErr-bind (ok a) f e h = h a refl
AllErr-bind (err stop) f e h = e

AllErr-refuse_if : (b : Bool) (stop : Stop) → IsRefusal stop → AllErr (refuse_if b stop)
AllErr-refuse_if true stop h = h
AllErr-refuse_if false stop h = tt

AllErr-or_fail {ℓ} :
    {A : Type ℓ} (o : Option A) (stop : Stop) → IsRefusal stop → AllErr (or_fail o stop)
AllErr-or_fail none stop h = h
AllErr-or_fail (some a) stop h = tt

-- The whitelist is set, unless it is not asked.
abbrev pub HasWhitelist : App → Type 0
HasWhitelist app = (app.whitelist_disabled ≡ true) ⊎ ((wl : Whitelist) × (app.whitelist ≡ some wl))

module _ (ext : Externals) (app : App) (r : HttpRequest) (t : Instant) where
  check_whitelist-AllErr :
      (req : SubmitRequest) → HasWhitelist app → AllErr (check_whitelist ext app req)
  unfolding check_whitelist error_response
  check_whitelist-AllErr req (inl off) = simp (off, check_whitelist) tt
  check_whitelist-AllErr req (inr (wl, set)) = elim (Bool-cases app.whitelist_disabled) [
    | inl off ↦ simp (off, check_whitelist) tt
    | inr on ↦ elim (Option-cases (lookup req.submitter wl)) [
      | inl missing ↦ simp (on, set, missing, check_whitelist) refl
      | inr (b, found) ↦ simp (on, set, found, check_whitelist) tt
    ]
  ]

  check_signature-AllErr :
      (req : SubmitRequest)
      → check_required_fields req ≡ true
      → AllErr (check_signature ext app req)
  unfolding check_signature error_response
  check_signature-AllErr req complete =
      let (block, found) = check_required_fields-block req complete in
      elim (Bool-cases app.verify_signature_disabled) [
        | inl off ↦ rw (off, check_signature) tt
        | inr on ↦
            rw (on, check_signature)
              (rw (make_sign_payload-payload req.content block found) (AllErr-refuse_if _ _ refl))
      ]

  check_request-AllErr :
      (req : SubmitRequest) → HasWhitelist app → AllErr (check_request ext app req t)
  unfolding check_request check_created_at error_response
  check_request-AllErr req w =
      AllErr-bind
        (refuse_if (not (check_required_fields req))
          (refused ext 400 (lit "One of required fields wasn't provided")))
        _ (AllErr-refuse_if (not (check_required_fields req)) _ refl)
        λ _ complete.
          let all : check_required_fields req ≡ true =
            ground (arith, refuse_if-eq-ok _ _ complete) in
          AllErr-bind (check_whitelist ext app req) _ (check_whitelist-AllErr req w) λ _ _.
            AllErr-bind (check_created_at ext req t) _ (AllErr-refuse_if _ _ refl)
              λ _ _. check_signature-AllErr req all

  read_body-AllErr : AllErr (read_body ext r)
  unfolding read_body error_response
  read_body-AllErr =
      AllErr-bind
        (refuse_if
          ((read_all_limited r).1 || not (same_length (read_all_limited r).0 r.content_length))
          (refused ext 400 (lit "Error reading the body")))
        _ (AllErr-refuse_if _ _ refl) (λ _ _. tt)

  admit-AllErr : HasWhitelist app → AllErr (admit ext app r t)
  unfolding admit check_content_length error_response
  admit-AllErr w =
      AllErr-bind (check_content_length ext r) _
        (AllErr-bind _ _ (AllErr-refuse_if (is_unknown r.content_length) _ refl)
          (λ _ _. AllErr-refuse_if _ _ refl))
        λ _ _. AllErr-bind (read_body ext r) _ read_body-AllErr λ body _.
          AllErr-bind
            (or_fail (unmarshal_request ext body) (refused ext 400 (lit "Error decoding payload")))
            _ (AllErr-or_fail (unmarshal_request ext body) _ refl)
            λ req _.
              AllErr-bind (check_request ext app req t) _ (check_request-AllErr req w) (λ _ _. tt)

-- The answers of the handler, beside what it saves: 200 if it saves, and if not a refusal.
pub data Answers : Served → Type 0 where
  saves :
      (c : AttemptCounter) (objs : ObjectsToSave)
      → Answers (record { outcome = respond ok_response; counter = c; saved = objs ∷ [] })
  refuses :
      (c : AttemptCounter) (answer : Response)
      → answer.status ≢ 200
      → Answers (record { outcome = respond answer; counter = c; saved = [] })

module _ (ext : Externals) (app : App) (r : HttpRequest) (t at : Instant) where
  refusal-Answers :
      (stop : Stop) (c : AttemptCounter)
      → IsRefusal stop
      → Answers (record { outcome = stop; counter = c; saved = [] })
  refusal-Answers panic c h = absurd h
  refusal-Answers (respond answer) c h = refuses c answer (ground (arith, h))

  objects_to_save-AllErr :
      (req : SubmitRequest)
      → check_required_fields req ≡ true
      → AllErr (objects_to_save ext req r t)
  unfolding objects_to_save make_paths error_response
  objects_to_save-AllErr req complete =
      let (block, b) = check_required_fields-block req complete in
      let long : ltb (length (format_utc t)) 10 ≡ false = ground (arith, format_utc-length t) in
      elim (Option-cases (make_meta_to_be_saved ext req block (client_address ext r))) [
        | inl bad ↦ simp (objects_to_save, b, long, bad) refl
        | inr (meta, m) ↦ simp (objects_to_save, b, long, m) tt
      ]

  accept-Answers :
      (req : SubmitRequest)
      → check_required_fields req ≡ true
      → IsValid app.submit_counter
      → Answers (accept ext app req r t at) × IsValid (accept ext app req r t at).counter
  unfolding accept error_response
  accept-Answers req complete v =
      let ((b, counter), recorded, s) =
        Returns-inv (record_attempt_correct app.submit_counter req.submitter at v) in
      elim (Bool-cases b) [
        | inr limited ↦
            let recorded' = recorded ∙ ap (λ x. some (x, counter)) limited in
            rw (recorded', accept) (refuses counter _ (ground arith), s.valid)
        | inl granted ↦
            let recorded' = recorded ∙ ap (λ x. some (x, counter)) granted in
            elim (Result-cases (objects_to_save ext req r t)) [
              | inl (objs, made) ↦
                  rw (recorded', accept) (rw (made, accept) (saves counter objs, s.valid))
              | inr (stop, failed) ↦
                  rw (recorded', accept)
                    (rw (failed, accept)
                      (
                        refusal-Answers stop counter (
                            subst (AllErr {A = ObjectsToSave}) failed
                              (objects_to_save-AllErr req complete)),
                        s.valid,
                      ))
            ]
      ]

  -- With a valid counter (one whose limit `make` allows and whose heaps are ordered), and a
  -- whitelist that has been set unless it is disabled, a call of ServeHTTP never panics: it saves
  -- once and answers 200, or it saves nothing and answers with another status; and the counter that
  -- it leaves is valid.
  pub serve_http-Answers :
      IsValid app.submit_counter
      → HasWhitelist app
      → Answers (serve_http ext app r t at) × IsValid (serve_http ext app r t at).counter
  unfolding serve_http
  serve_http-Answers v w = elim (Result-cases (admit ext app r t)) [
    | inr (stop, refused) ↦
        rw (refused, serve_http)
          (
            refusal-Answers stop app.submit_counter
                (subst (AllErr {A = SubmitRequest}) refused (admit-AllErr ext app r t w)),
            v,
          )
    | inl (req, admitted) ↦
        rw (admitted, serve_http)
          (accept-Answers req ((admit-IsAdmissible ext app r t req).0 admitted).complete v)
  ]
