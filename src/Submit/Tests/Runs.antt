-- ===== src/Submit/Tests/Runs.antt =====
-- The sample request among other calls, and the row that it becomes.
use mathlib.Core.Option.{some-injective}
use uptime_service_backend.Base.{
  count, ◌≡◌, refl, true, none, some, if◌then◌else◌, ◌++◌, ◌==◌, length, drop, [], ◌∷◌, arith, inr,
  take,
}
use uptime_service_backend.Base.Int.{pos, ◌<ℤ◌, pos_part, neg_part, ◌+ℤ◌}
use uptime_service_backend.Base.Text.{Bytes, lit, equal, has_prefix}
use uptime_service_backend.Base.Result.{ok}
use uptime_service_backend.Clock.{add}
use uptime_service_backend.Clock.Civil.{format, format_utc}
use uptime_service_backend.Keys.{pk_string}
use uptime_service_backend.Samples.{libraries, key, request, block}
use uptime_service_backend.Request.{get_block_data_hash}
use uptime_service_backend.Request.Meta.{metadata_text}
use uptime_service_backend.Limiter.{new_attempt_counter, IsValid, minus_one_hour}
use uptime_service_backend.Limiter.History.{of_key_after}
use uptime_service_backend.Paths.{ObjectsToSave}
use uptime_service_backend.Storage.{Readers, prepared, object_to_save_to_submission}
use uptime_service_backend.Storage.Roundtrip.{row}
use uptime_service_backend.Submit.{
  respond, ok_response, client_address, objects_to_save, serve_http,
}
use uptime_service_backend.Submit.Answer.{Answers, serve_http-Answers}
use uptime_service_backend.Submit.Quota.{Call, serve, attempts}
use uptime_service_backend.Submit.Quota.Fair.{counter_after, serve-within_limit}
use uptime_service_backend.Submit.Row.{described, IsReadBack, objects_to_save-row}
use uptime_service_backend.Submit.Serve.{objects_to_save-ok}
use uptime_service_backend.Submit.Admission.{IsAdmissible}
use uptime_service_backend.Submit.Tests.{
  now, app, http, call, valid, sample_admitted, sample-IsAdmissible, IsCapacity-one,
}

serve_http-Answers_example :
    Answers (serve_http libraries app http now now)
    × IsValid (serve_http libraries app http now now).counter
serve_http-Answers_example =
    serve_http-Answers libraries app http now now valid (inr ((key, true) ∷ [], refl))

-- The sample request is sent again more than an hour later.
abbrev later : Call
later = record call {
  submitted_at = add now (pos 3_600_000_000_001);
  attempt_at = add now (pos 3_600_000_000_001);
}

none_late :
    pos (
      count
        (of_key_after key (add later.attempt_at minus_one_hour))
        (attempts libraries app (call ∷ [])))
    <ℤ pos 1
unfolding attempts pos_part neg_part add ◌+ℤ◌ equal
none_late = rw (sample_admitted, attempts) (omega arith)

later-IsAdmissible : IsAdmissible libraries app http later.submitted_at request
unfolding pos_part neg_part add ◌+ℤ◌
later-IsAdmissible = record {
  given = sample-IsAdmissible.given;
  fits = sample-IsAdmissible.fits;
  arrived = sample-IsAdmissible.arrived;
  decoded = sample-IsAdmissible.decoded;
  complete = sample-IsAdmissible.complete;
  registered = sample-IsAdmissible.registered;
  present = omega arith;
  signed = sample-IsAdmissible.signed;
}

serve-within_limit_example :
    (objs : ObjectsToSave) × ((serve libraries app
        (counter_after libraries app (new_attempt_counter (pos 1)) (call ∷ []))
        later).saved
      ≡ objs ∷ [])
    × ((serve libraries app
          (counter_after libraries app (new_attempt_counter (pos 1)) (call ∷ []))
          later).outcome
        ≡ respond ok_response)
serve-within_limit_example =
    serve-within_limit libraries app (pos 1) (call ∷ []) later request IsCapacity-one
      later-IsAdmissible (λ w h. cc) none_late

abbrev address : Bytes
address = lit "1.2.3.4"

abbrev to_quote : Bytes → Bytes
to_quote [] = []
to_quote (x ∷ s) = if x == b'"' then [] else x ∷ to_quote s

-- The text after the first occurrence of another, up to a quote.
abbrev text_after : Bytes → Bytes → Bytes
text_after start [] = []
text_after start (x ∷ s) =
    let rest = text_after start s in
    if has_prefix (x ∷ s) start then to_quote (drop (length start) (x ∷ s)) else rest

abbrev text_of : Bytes → Bytes → Bytes
text_of name = text_after (lit "\"" ++ name ++ lit "\":\"")

-- A reader of objects that have texts as members.
abbrev readers : Readers
readers = record {
  unmarshal_submission = λ b. some (record {
    block_hash = text_of (lit "block_hash") b;
    submitted_at_date = [];
    submitted_at = pos 0;
    created_at = now;
    remote_addr = text_of (lit "remote_addr") b;
    peer_id = text_of (lit "peer_id") b;
    submitter = text_of (lit "submitter") b;
    raw_block = none;
    snark_work = none;
    graphql_control_port = pos 0;
    built_with_commit_sha = text_of (lit "built_with_commit_sha") b;
  });
  parse_time = λ t. some now;
}

-- It reads the metadata of the sample request.
metadata_read :
    readers.unmarshal_submission (metadata_text libraries request block address [])
    ≡ some (described libraries request block address now)
unfolding pk_string get_block_data_hash has_prefix format
metadata_read = refl

sample-IsReadBack :
    IsReadBack libraries readers request block (client_address libraries http) now now now
unfolding client_address pk_string get_block_data_hash
sample-IsReadBack = record {
  time = refl;
  metadata = λ snark h.
      let none_given : [] ≡ snark = some-injective _ _ h in rw (← none_given) metadata_read;
  key_text = refl;
  key_no_slash = ground arith;
  key_no_hyphen = ground arith;
  hash_no_slash = ground arith;
}

sample_made : (objs : ObjectsToSave) × (objects_to_save libraries request http now ≡ ok objs)
sample_made = objects_to_save-ok libraries app http now request sample-IsAdmissible (λ w h. cc)

objects_to_save-row_example :
    (a b : Bytes × Bytes) × (sample_made.0 ≡ a ∷ b ∷ [])
    × (object_to_save_to_submission readers (a ∷ b ∷ [])
        ≡ some (
            prepared (
              row
                (described libraries request block (client_address libraries http) now)
                (take 10 (format_utc now))
                now
                block.decoded)))
    × (object_to_save_to_submission readers (b ∷ a ∷ [])
        ≡ some (
            prepared (
              row
                (described libraries request block (client_address libraries http) now)
                (take 10 (format_utc now))
                now
                block.decoded)))
objects_to_save-row_example =
    objects_to_save-row libraries readers request block http now now now sample_made.0 refl
      sample-IsReadBack sample_made.1
