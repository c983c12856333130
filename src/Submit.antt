-- ===== src/Submit.antt =====
-- src/delegation_backend/submit.go and signer.go: the handler of /v1/submit.
-- The handler's state is the attempt counter; `Save` is a list of what it is called with.
pub mod Admission
pub mod Checks
pub mod Serve
pub mod Quota
pub mod Answer
pub mod Row
mod Tests
use uptime_service_backend.Base.{
  ℕ, zero, suc, ◌+◌, ◌-◌, ◌*◌, Bool, true, false, not, ◌&&◌, ◌||◌, Option, none, some, List, [],
  ◌∷◌, ◌++◌, leb, if◌then◌else◌, length, take,
}
use uptime_service_backend.Base.Int.{ℤ, pos, negsuc, ltb_ℤ, leb_ℤ, pos_part}
use uptime_service_backend.Base.Text.{Bytes, lit, is_empty}
use uptime_service_backend.Base.Dict.{lookup, insert}
use uptime_service_backend.Base.Result.{Result, ok, err, ◌>>=◌, ◌>>◌, refuse_if, or_fail}
use uptime_service_backend.Clock.{Instant, Duration, minute, after, add}
use uptime_service_backend.Externals.{Externals}
use uptime_service_backend.Keys.{Pk, Sig, pk_string}
use uptime_service_backend.Request.{
  Base64, SubmitRequest, make_sign_payload, get_block_data_hash, make_meta_to_be_saved,
  check_required_fields,
}
use uptime_service_backend.Request.Decode.{unmarshal_request}
use uptime_service_backend.Whitelist.{WhitelistMVar, read_whitelist}
use uptime_service_backend.Limiter.{AttemptCounter, record_attempt}
use uptime_service_backend.Paths.{ObjectsToSave, FilePaths, make_paths}

abbrev pub max_submit_payload_size : ℤ
max_submit_payload_size = pos 50_000_000

-- Minus five minutes.
abbrev pub time_diff_delta : Duration
time_diff_delta = negsuc (5 * minute - 1)

pub record App : Type 0 where
  pub submit_counter : AttemptCounter
  pub whitelist : WhitelistMVar
  pub whitelist_disabled : Bool
  pub verify_signature_disabled : Bool
  pub network_id : ℕ

-- What net/http hands over. The body is a stream, which gives its bytes and then ends or fails.
pub record HttpRequest : Type 0 where
  pub content_length : ℤ
  pub body : Bytes
  pub body_fails : Bool
  pub forwarded_for : Bytes
  pub remote_addr : Bytes

pub record Response : Type 0 where
  pub status : ℕ
  pub body : Bytes

-- How a call ends: with a response, or by a panic, after which net/http closes the connection.
pub data Stop : Type 0 where
  respond : Response → Stop
  panic : Stop

-- `io.ReadAll(io.LimitReader(r.Body, n))`: what was read, and whether reading failed.
pub read_all_limited : HttpRequest → Bytes × Bool
read_all_limited r =
    let n = pos_part r.content_length in
    if leb n (length r.body) then (take n r.body, false) else (r.body, r.body_fails)

abbrev pub is_unknown : ℤ → Bool
is_unknown (negsuc zero) = true
is_unknown (negsuc (suc n)) = false
is_unknown (pos n) = false

abbrev pub same_length : Bytes → ℤ → Bool
same_length b n = leb_ℤ (pos (length b)) n && leb_ℤ n (pos (length b))

-- What a call leaves behind.
pub record Served : Type 0 where
  pub outcome : Stop
  pub counter : AttemptCounter
  pub saved : List ObjectsToSave

abbrev pub ok_response : Response
ok_response = record { status = 200; body = lit "{\"status\":\"ok\"}" }

module _ (ext : Externals) where
  -- `writeErrorResponse`, after `WriteHeader`.
  pub error_response : ℕ → Bytes → Response
  error_response status msg = record {
    status = status;
    body = lit "{\"error\":" ++ ext.quote msg ++ lit "}";
  }

  abbrev pub refused : ℕ → Bytes → Stop
  refused status msg = respond (error_response status msg)

  -- The C strings hold the bytes of their arguments; the length is that of the hash.
  pub verify_sig : Pk → Sig → Bytes → ℕ → Bool
  verify_sig pk sig message network_id =
      ext.verify_message_string sig pk message (length message) network_id

  pub check_content_length : HttpRequest → Result Stop (Unit {0})
  check_content_length r = do
    refuse_if (is_unknown r.content_length) (respond (record { status = 411; body = [] }))
    refuse_if (ltb_ℤ max_submit_payload_size r.content_length)
        (respond (record { status = 413; body = [] }))

  pub read_body : HttpRequest → Result Stop Bytes
  unfolding read_all_limited
  read_body r = do
    let (body, failed) = read_all_limited r
    refuse_if (failed || not (same_length body r.content_length))
        (refused 400 (lit "Error reading the body"))
    ok body

  pub check_whitelist : App → SubmitRequest → Result Stop (Unit {0})
  unfolding read_whitelist
  check_whitelist app req =
      if app.whitelist_disabled then ok tt else elim (read_whitelist app.whitelist) [
        | none ↦ err panic
        | some wl ↦ elim (lookup req.submitter wl) [
          | some _ ↦ ok tt
          | none ↦
              err (refused 401 (lit "Submitter is not registered: " ++ pk_string ext req.submitter))
        ]
      ]

  pub check_created_at : SubmitRequest → Instant → Result Stop (Unit {0})
  check_created_at req submitted_at =
      refuse_if (after (add req.content.created_at.instant time_diff_delta) submitted_at)
        (refused 400 (lit "Field created_at is a timestamp in future"))

  pub check_signature : App → SubmitRequest → Result Stop (Unit {0})
  unfolding verify_sig
  check_signature app req =
      if app.verify_signature_disabled then ok tt else elim (make_sign_payload req.content) [
        | none ↦ err panic
        | some payload ↦ elim payload.error [
          | some _ ↦ err (refused 500 (lit "Unexpected server error"))
          | none ↦
              refuse_if
                (not (verify_sig req.submitter req.sig (ext.sum256 payload.buf) app.network_id))
                (refused 401 (lit "Invalid signature"))
        ]
      ]

  -- The checks of a request that has been read.
  pub check_request : App → SubmitRequest → Instant → Result Stop (Unit {0})
  check_request app req submitted_at = do
    refuse_if (not (check_required_fields req))
        (refused 400 (lit "One of required fields wasn't provided"))
    check_whitelist app req
    check_created_at req submitted_at
    check_signature app req

  -- ServeHTTP up to the attempt counter.
  pub admit : App → HttpRequest → Instant → Result Stop SubmitRequest
  admit app r submitted_at = do
    check_content_length r
    body ← read_body r
    req ← or_fail (unmarshal_request ext body) (refused 400 (lit "Error decoding payload"))
    check_request app req submitted_at
    ok req

  pub client_address : HttpRequest → Bytes
  client_address r = if is_empty r.forwarded_for then r.remote_addr else r.forwarded_for

  -- The objects that an accepted submission is saved as, or why there are none.
  pub objects_to_save : SubmitRequest → HttpRequest → Instant → Result Stop ObjectsToSave
  unfolding client_address
  objects_to_save req r submitted_at = do
    block ← or_fail req.content.block panic
    let block_hash = get_block_data_hash ext block
    paths ← or_fail (make_paths ext submitted_at block_hash req.submitter) panic
    meta ←
        or_fail (make_meta_to_be_saved ext req block (client_address r))
          (refused 500 (lit "Unexpected server error"))
    ok (insert paths.block block.decoded (insert paths.meta meta []))

  -- ServeHTTP from the attempt counter on; the counter reads the clock for itself.
  pub accept : App → SubmitRequest → HttpRequest → Instant → Instant → Served
  accept app req r submitted_at attempt_at =
      elim (record_attempt app.submit_counter req.submitter attempt_at) [
        | none ↦ record { outcome = panic; counter = app.submit_counter; saved = [] }
        | some (false, counter) ↦ record {
          outcome = refused 429 (lit "Too many requests per hour");
          counter = counter;
          saved = [];
        }
        | some (true, counter) ↦ elim (objects_to_save req r submitted_at) [
          | err stop ↦ record { outcome = stop; counter = counter; saved = [] }
          | ok objs ↦ record { outcome = respond ok_response; counter = counter; saved = objs ∷ [] }
        ]
      ]

  pub serve_http : App → HttpRequest → Instant → Instant → Served
  serve_http app r submitted_at attempt_at = elim (admit app r submitted_at) [
    | err stop ↦ record { outcome = stop; counter = app.submit_counter; saved = [] }
    | ok req ↦ accept app req r submitted_at attempt_at
  ]
