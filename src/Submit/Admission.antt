-- ===== src/Submit/Admission.antt =====
-- Which submissions pass every check before the attempt counter.
use uptime_service_backend.Base.{
  ◌*◌, ◌≤◌, ◌≡◌, ◌↔◌, refl, ap, true, some, inl, inr, Option-cases, length, take,
}
use uptime_service_backend.Base.Int.{pos, ◌≤ℤ◌, pos_part}
use uptime_service_backend.Base.Text.{Bytes, lit}
use uptime_service_backend.Base.Result.{ok, ◌>>=◌, ◌>>◌, >>=-eq-ok, >>-eq-ok_iff, or_fail}
use uptime_service_backend.Clock.{Instant, minute, add}
use uptime_service_backend.Externals.{Externals}
use uptime_service_backend.Request.{SubmitRequest, check_required_fields}
use uptime_service_backend.Request.Decode.{unmarshal_request}
use uptime_service_backend.Submit.{
  App, HttpRequest, Stop, max_submit_payload_size, check_content_length, read_body, check_request,
  refused, admit,
}
use uptime_service_backend.Submit.Checks.{
  not-is_unknown, IsRegistered, IsSigned, check_content_length_iff, read_body_iff,
  check_request_iff,
}

module _ (ext : Externals) where
  pub record IsAdmissible (app : App) (r : HttpRequest) (t : Instant) (req : SubmitRequest)
      : Type 0 where
    -- The length is given and at most 50 MB, and the body is as long.
    pub given : pos 0 ≤ℤ r.content_length
    pub fits : r.content_length ≤ℤ max_submit_payload_size
    pub arrived : pos_part r.content_length ≤ length r.body
    pub decoded : unmarshal_request ext (take (pos_part r.content_length) r.body) ≡ some req
    pub complete : check_required_fields req ≡ true
    pub registered : IsRegistered ext app req
    -- At most five minutes in the future, however long ago.
    pub present : req.content.created_at.instant ≤ℤ add t (pos (5 * minute))
    pub signed : IsSigned ext app req

  decode_and_check_iff :
      (app : App) (body : Bytes) (t : Instant) (req : SubmitRequest) (stop : Stop)
      → ((or_fail (unmarshal_request ext body) stop >>= λ req'.
            check_request ext app req' t >> ok req')
          ≡ ok req)
        ↔ ((unmarshal_request ext body ≡ some req) × (check_request ext app req t ≡ ok tt))
  decode_and_check_iff app body t req stop = elim (Option-cases (unmarshal_request ext body)) [
    | inl bad ↦ rw bad (λ h. cc, λ h. cc)
    | inr (req', found) ↦ rw found (
      λ h.
          let (checked, same) = (>>-eq-ok_iff (check_request ext app req' t) (ok req') req).0 h in
          let e : req' ≡ req = cc in (ap some e, rw e at checked),
      λ h.
          let e : req' ≡ req = cc in
          (>>-eq-ok_iff (check_request ext app req' t) (ok req') req).1 (rw e h.1, ap ok e),
    )
  ]

  -- ServeHTTP lets a submission through to the attempt counter exactly if it is admissible.
  pub admit-IsAdmissible :
      (app : App) (r : HttpRequest) (t : Instant) (req : SubmitRequest)
      → (admit ext app r t ≡ ok req) ↔ IsAdmissible app r t req
  unfolding admit
  admit-IsAdmissible app r t req =
      let bad = refused ext 400 (lit "Error decoding payload") in
      let rest = λ (body : Bytes).
        (or_fail (unmarshal_request ext body) bad >>= λ req'.
        check_request ext app req' t >> ok req') in
      let sent = take (pos_part r.content_length) r.body in
      let split = >>-eq-ok_iff (check_content_length ext r) (read_body ext r >>= rest) req in
      (
        λ h.
            let (length_ok, h1) = split.0 h in
            let (body, read, h2) = >>=-eq-ok (read_body ext r) rest h1 in
            let (nonneg, arrived, whole) = (read_body_iff ext r body).0 read in
            let (found, checked) = (decode_and_check_iff app body t req bad).0 h2 in
            let (complete, registered, present, signed) =
              (check_request_iff ext app req t).0 checked in
            record {
              given = nonneg;
              fits = ((check_content_length_iff ext r).0 length_ok).1;
              arrived = arrived;
              decoded = rw whole at found;
              complete = complete;
              registered = registered;
              present = present;
              signed = signed;
            },
        λ a.
            let read = (read_body_iff ext r sent).1 (a.given, a.arrived, refl) in
            let checked =
              (check_request_iff ext app req t).1 (a.complete, a.registered, a.present, a.signed) in
            split.1 (
              (check_content_length_iff ext r).1 (not-is_unknown r.content_length a.given, a.fits),
              rw read ((decode_and_check_iff app sent t req bad).1 (a.decoded, checked)),
            ),
      )
