-- ===== src/Submit/Tests.antt =====
-- Runs of the handler: the sample request is saved, and a request without a length is not.
mod Runs
use uptime_service_backend.Base.{
  count, length, ◌≡◌, ◌⊎◌, ◌↔◌, ap, refl, true, false, some, [], ◌∷◌, arith, inl, inr,
}
use uptime_service_backend.Base.Int.{pos, negsuc, ◌≤ℤ◌, ◌<ℤ◌, pos_part, neg_part, ◌+ℤ◌}
use uptime_service_backend.Base.Text.{lit, equal, equal_refl}
use uptime_service_backend.Base.Dict.{lookup}
use uptime_service_backend.Base.Result.{ok}
use uptime_service_backend.Clock.{Instant, add}
use uptime_service_backend.Keys.{
  pk_length, sig_length, nil_pk, nil_sig, pk_string, marshal_pk, marshal_sig, unmarshal_pk,
  unmarshal_sig,
}
use uptime_service_backend.Keys.Codec.{unmarshal_pk-marshal_pk, unmarshal_sig-marshal_sig}
use uptime_service_backend.Samples.{
  libraries, libraries-IsBase58, libraries-IsJson, key, key-IsPk, sig, sig-IsSig, request, content,
  block,
}
use uptime_service_backend.Request.{SubmitRequest, check_required_fields, is_nil_time}
use uptime_service_backend.Request.Decode.{unmarshal_base64, unmarshal_pointer, unmarshal_request}
use uptime_service_backend.Request.Payload.{payload}
use uptime_service_backend.Limiter.{max_capacity, IsCapacity, new_attempt_counter, heap_of, IsValid}
use uptime_service_backend.Limiter.Record.{
  recent_attempts, new_attempt_counter-IsValid, IsCapacity-pos,
}
use uptime_service_backend.Paths.{ObjectsToSave}
use uptime_service_backend.Submit.{App, HttpRequest, Served, admit, serve_http, refused, verify_sig}
use uptime_service_backend.Limiter.History.{IsMonotone}
use uptime_service_backend.Limiter.Window.{in_hour}
use uptime_service_backend.Submit.Quota.{Call, admitted, attempts, saved_log, saved_log-in_hour}
use uptime_service_backend.Submit.Admission.{IsAdmissible, admit-IsAdmissible}
use uptime_service_backend.Submit.Serve.{
  Accepted, serve_http-Accepted, serve_http-refused, serve_http-admissible,
}

abbrev now : Instant
now = pos 63_000_000_100_000_000_000

abbrev app : App
app = record {
  submit_counter = new_attempt_counter (pos 1);
  whitelist = some ((key, true) ∷ []);
  whitelist_disabled = false;
  verify_signature_disabled = false;
  network_id = 1;
}

abbrev http : HttpRequest
http = record {
  content_length = pos 2;
  body = lit "{}";
  body_fails = false;
  forwarded_for = [];
  remote_addr = lit "1.2.3.4";
}

abbrev unsized : HttpRequest
unsized = record http { content_length = negsuc 0 }

submitter_decoded : unmarshal_pk libraries nil_pk (marshal_pk libraries key) ≡ some key
submitter_decoded =
    unmarshal_pk-marshal_pk libraries libraries-IsBase58 libraries-IsJson key nil_pk key-IsPk refl

sig_decoded : unmarshal_sig libraries nil_sig (marshal_sig libraries sig) ≡ some sig
sig_decoded =
    unmarshal_sig-marshal_sig libraries libraries-IsBase58 libraries-IsJson sig nil_sig sig-IsSig
      refl

decoded : unmarshal_request libraries (lit "{}") ≡ some request
unfolding unmarshal_request marshal_pk pk_string marshal_sig unmarshal_pointer unmarshal_base64
decoded = rw submitter_decoded (rw sig_decoded refl)

complete : check_required_fields request ≡ true
unfolding check_required_fields equal is_nil_time
complete = refl

registered : lookup key ((key, true) ∷ []) ≡ some true
unfolding lookup equal
registered = refl

sample-IsAdmissible : IsAdmissible libraries app http now request
unfolding pos_part neg_part add ◌+ℤ◌ verify_sig
sample-IsAdmissible = record {
  given = omega arith;
  fits = omega arith;
  arrived = omega arith;
  decoded = decoded;
  complete = complete;
  registered = let found = registered in inr ((key, true) ∷ [], refl, λ h. cc (found, h));
  present = omega arith;
  signed = inr (block, refl, equal_refl (libraries.sum256 (payload block content)));
}

admit-IsAdmissible_example :
    (admit libraries app http now ≡ ok request) ↔ IsAdmissible libraries app http now request
admit-IsAdmissible_example = admit-IsAdmissible libraries app http now request

pub IsCapacity-one : IsCapacity (pos 1)
unfolding max_capacity
IsCapacity-one = IsCapacity-pos 1 (omega arith)

valid : IsValid app.submit_counter
valid = new_attempt_counter-IsValid (pos 1) IsCapacity-one

serve_http-admissible_example :
    ((pos (recent_attempts app.submit_counter key now) <ℤ app.submit_counter.max_attempt)
      × (objs : ObjectsToSave) × Accepted libraries app http now now objs)
    ⊎ ((app.submit_counter.max_attempt ≤ℤ pos (recent_attempts app.submit_counter key now))
        × ((serve_http libraries app http now now).saved ≡ [])
        × ((serve_http libraries app http now now).outcome
            ≡ refused libraries 429 (lit "Too many requests per hour")))
serve_http-admissible_example =
    serve_http-admissible libraries app http now now request sample-IsAdmissible (λ w h. cc) valid

-- Nothing is remembered yet, so the request is saved.
none_recent : pos (recent_attempts app.submit_counter key now) <ℤ app.submit_counter.max_attempt
unfolding heap_of new_attempt_counter lookup pos_part neg_part
none_recent = omega arith

limit_reached :
    app.submit_counter.max_attempt ≤ℤ pos (recent_attempts app.submit_counter key now) → ⊥
limit_reached h = omega (arith, none_recent)

sample_saved : (objs : ObjectsToSave) × ((serve_http libraries app http now now).saved ≡ objs ∷ [])
sample_saved = elim serve_http-admissible_example [
  | inl (free, objs, accepted) ↦ (objs, ap (λ (s : Served). s.saved) accepted.served)
  | inr (full, nothing, limited) ↦ absurd (limit_reached full)
]

serve_http-Accepted_example : Accepted libraries app http now now sample_saved.0
serve_http-Accepted_example =
    serve_http-Accepted libraries app http now now sample_saved.0 [] sample_saved.1

unsized-refused : (req : SubmitRequest) → ¬ IsAdmissible libraries app unsized now req
unfolding pos_part neg_part
unsized-refused req a = absurd (omega (arith, a.given))

abbrev call : Call
call = record { http = http; whitelist = app.whitelist; submitted_at = now; attempt_at = now }

sample_admitted : admitted libraries app call ≡ ok request
sample_admitted = (admit-IsAdmissible libraries app http now request).1 sample-IsAdmissible

sample-IsMonotone : IsMonotone now (attempts libraries app (call ∷ call ∷ []))
unfolding attempts pos_part neg_part
sample-IsMonotone =
    rw (sample_admitted, attempts) (rw sample_admitted (omega arith, (omega arith, tt)))

none_negative : pos 0 ≤ℤ pos 1
none_negative = IsCapacity-one.least

saved_log-in_hour_example :
    pos (
      count
        (in_hour key now)
        (saved_log libraries app (new_attempt_counter (pos 1)) [] (call ∷ call ∷ [])))
    ≤ℤ pos 1
saved_log-in_hour_example =
    saved_log-in_hour libraries app (pos 1) now (call ∷ call ∷ []) key now none_negative
      sample-IsMonotone
