-- ===== src/Submit/Checks.antt =====
-- The checks of ServeHTTP, one by one: when each lets a request through.
use uptime_service_backend.Base.{
  zero, suc, ◌*◌, ◌-◌, ◌≤◌, ◌≡◌, ◌≢◌, ◌⊎◌, ◌↔◌, refl, sym, Bool, true, false, not, ◌||◌, none, some,
  inl, inr, arith, Bool-cases, Option-cases, length, take, length-take_le, leb,
}
use uptime_service_backend.Base.Int.{
  ℤ, pos, negsuc, ltb_ℤ, ◌≤ℤ◌, pos_part, pos_part-pos, neg_part-pos, pos_part-negsuc,
  neg_part-negsuc, one_part_zero,
}
use uptime_service_backend.Base.Text.{Bytes}
use uptime_service_backend.Base.Dict.{lookup}
use uptime_service_backend.Base.Result.{
  ok, ◌>>◌, refuse_if, >>-eq-ok_iff, refuse_if-eq-ok, refuse_if_then,
}
use uptime_service_backend.Clock.{Instant, minute, after, add, add_parts}
use uptime_service_backend.Externals.{Externals}
use uptime_service_backend.Request.{Base64, SubmitRequest, check_required_fields}
use uptime_service_backend.Request.Payload.{
  payload, make_sign_payload-payload, check_required_fields-block,
}
use uptime_service_backend.Whitelist.{Whitelist}
use uptime_service_backend.Submit.{
  App, HttpRequest, Stop, max_submit_payload_size, time_diff_delta, is_unknown,
  check_content_length, same_length, read_body, check_whitelist, check_created_at, verify_sig,
  check_signature, check_request,
}

pub not-is_unknown : (n : ℤ) → pos 0 ≤ℤ n → is_unknown n ≡ false
not-is_unknown (pos n) h = refl
not-is_unknown (negsuc zero) h =
    absurd (omega (arith, pos_part-pos 0, neg_part-pos 0, pos_part-negsuc 0, neg_part-negsuc 0))
not-is_unknown (negsuc (suc n)) h = refl

same_length_iff :
    (b : Bytes) (n : ℤ) → (same_length b n ≡ true) ↔ ((length b ≡ pos_part n) × (pos 0 ≤ℤ n))
same_length_iff b n =
    let a = pos_part-pos (length b) in
    let z = neg_part-pos (length b) in
    (
      λ h. ground (arith, a, z, one_part_zero n, pos_part-pos 0, neg_part-pos 0),
      λ h. ground (arith, a, z, one_part_zero n, pos_part-pos 0, neg_part-pos 0),
    )

sized-ok :
    (b : Bytes) (failed : Bool) (n : ℤ) (stop : Stop) {b' : Bytes}
    → (refuse_if (failed || not (same_length b n)) stop >> ok b) ≡ ok b'
    → (failed ≡ false) × (same_length b n ≡ true) × (b ≡ b')
sized-ok b true n stop h = cc
sized-ok b false n stop h = elim (Bool-cases (same_length b n)) [
  | inl same ↦ let h' = rw same at h in (refl, same, cc)
  | inr differ ↦ let h' = rw differ at h in cc
]

module _ (ext : Externals) where
  -- The submitter is on the list, or the list is disabled.
  abbrev pub IsRegistered : App → SubmitRequest → Type 0
  IsRegistered app req =
      (app.whitelist_disabled ≡ true)
      ⊎ ((wl : Whitelist) × (app.whitelist ≡ some wl) × (lookup req.submitter wl ≢ none))

  -- The signature is the submitter's, of the hash of the payload, or signatures are not verified.
  abbrev pub IsSigned : App → SubmitRequest → Type 0
  IsSigned app req =
      (app.verify_signature_disabled ≡ true)
      ⊎ ((block : Base64) × (req.content.block ≡ some block)
          × (verify_sig ext req.submitter req.sig (ext.sum256 (payload block req.content))
                app.network_id
              ≡ true))

  pub check_content_length_iff :
      (r : HttpRequest)
      → (check_content_length ext r ≡ ok tt)
        ↔ ((is_unknown r.content_length ≡ false) × (r.content_length ≤ℤ max_submit_payload_size))
  unfolding check_content_length
  check_content_length_iff r = (
    λ h.
        let (known, rest) = refuse_if_then _ _ _ h in
        let small = refuse_if-eq-ok _ _ rest in (known, ground arith),
    λ h.
        let small : ltb_ℤ max_submit_payload_size r.content_length ≡ false = ground arith in
        rw (h.0, small),
  )

  -- The body that is read is as long as announced.
  pub read_body_iff :
      (r : HttpRequest) (b : Bytes)
      → (read_body ext r ≡ ok b) ↔ (
          (pos 0 ≤ℤ r.content_length)
          × (pos_part r.content_length ≤ length r.body)
          × (b ≡ take (pos_part r.content_length) r.body))
  unfolding read_body
  read_body_iff r b =
      let n = pos_part r.content_length in
      elim (Bool-cases (leb n (length r.body))) [
        | inl long ↦
            let size : length (take n r.body) ≡ n = length-take_le n r.body (ground arith) in
            rw long (
              λ h.
                  let (kept, sized, same) = sized-ok (take n r.body) false r.content_length _ h in
                  (
                    ((same_length_iff (take n r.body) r.content_length).0 sized).1,
                    ground arith,
                    sym same,
                  ),
              λ h. rw ((same_length_iff (take n r.body) r.content_length).1 (size, h.0), h.2),
            )
        | inr short ↦ rw short (
          λ h.
              let (kept, sized, same) = sized-ok r.body r.body_fails r.content_length _ h in
              let (size, nonneg) = (same_length_iff r.body r.content_length).0 sized in
              absurd (ground (arith, short, size)),
          λ h. absurd (ground (arith, short, h.1)),
        )
      ]

  check_whitelist_iff :
      (app : App) (req : SubmitRequest)
      → (check_whitelist ext app req ≡ ok tt) ↔ IsRegistered app req
  unfolding check_whitelist
  check_whitelist_iff app req = elim (Bool-cases app.whitelist_disabled) [
    | inl off ↦ (λ h. inl off, λ h. rw off)
    | inr on ↦ elim (Option-cases app.whitelist) [
      | inl unset ↦ (
        λ h. let h' = rw (on, unset, check_whitelist) at h in cc,
        elim [ inl off ↦ cc | inr (wl, e, p) ↦ cc ],
      )
      | inr (wl, e) ↦ elim (Option-cases (lookup req.submitter wl)) [
        | inl missing ↦ (
          λ h. ground (arith, on, e, missing),
          elim [ inl off ↦ cc | inr (wl', e', p) ↦ absurd (p (ground (arith, e, e', missing))) ],
        )
        | inr (v, found) ↦ (λ h. inr (wl, e, λ none_found. cc), λ h. ground (arith, on, e, found))
      ]
    ]
  ]

  check_created_at_iff :
      (req : SubmitRequest) (t : Instant)
      → (check_created_at ext req t ≡ ok tt)
        ↔ (req.content.created_at.instant ≤ℤ add t (pos (5 * minute)))
  unfolding check_created_at
  check_created_at_iff req t =
      let created = req.content.created_at.instant in
      let shifted = add_parts created time_diff_delta in
      let allowed = add_parts t (pos (5 * minute)) in
      let p = pos_part-negsuc (5 * minute - 1) in
      let n = neg_part-negsuc (5 * minute - 1) in
      let p' = pos_part-pos (5 * minute) in
      let n' = neg_part-pos (5 * minute) in
      (
        λ h. let early = refuse_if-eq-ok _ _ h in ground (arith, early),
        λ h.
            let early : after (add created time_diff_delta) t ≡ false = ground (arith, h) in
            rw early,
      )

  check_signature_iff :
      (app : App) (req : SubmitRequest)
      → check_required_fields req ≡ true
      → (check_signature ext app req ≡ ok tt) ↔ IsSigned app req
  unfolding check_signature
  check_signature_iff app req complete = elim (Bool-cases app.verify_signature_disabled) [
    | inl off ↦ (λ h. inl off, λ h. rw off)
    | inr on ↦
        let (block, e) = check_required_fields-block req complete in
        let made = make_sign_payload-payload req.content block e in
        let hash = ext.sum256 (payload block req.content) in
        elim (Bool-cases (verify_sig ext req.submitter req.sig hash app.network_id)) [
          | inl valid ↦ (λ h. inr (block, e, valid), λ h. rw (on, made, valid))
          | inr invalid ↦ (
            λ h. let h' = rw (on, made, invalid) at h in cc,
            elim [
              | inl off ↦ cc
              | inr (block', e', valid) ↦
                  let same : block ≡ block' = ground (arith, e, e') in
                  let valid' = rw (← same) at valid in cc
            ],
          )
        ]
  ]

  -- The four checks of a request that has been read.
  pub check_request_iff :
      (app : App) (req : SubmitRequest) (t : Instant)
      → (check_request ext app req t ≡ ok tt) ↔ (
          (check_required_fields req ≡ true)
          × IsRegistered app req
          × (req.content.created_at.instant ≤ℤ add t (pos (5 * minute)))
          × IsSigned app req)
  unfolding check_request
  check_request_iff app req t =
      let timely = check_created_at ext req t in
      let signed = check_signature ext app req in
      let listed = check_whitelist ext app req in
      let split₂ = >>-eq-ok_iff timely signed tt in
      let split₁ = >>-eq-ok_iff listed (timely >> signed) tt in
      elim (Bool-cases (check_required_fields req)) [
        | inl complete ↦ rw complete (
          λ h.
              let (l, rest) = split₁.0 h in
              let (p, s) = split₂.0 rest in
              (
                refl,
                (check_whitelist_iff app req).0 l,
                (check_created_at_iff req t).0 p,
                (check_signature_iff app req complete).0 s,
              ),
          λ h. split₁.1 (
            (check_whitelist_iff app req).1 h.1,
            split₂.1
                ((check_created_at_iff req t).1 h.2, (check_signature_iff app req complete).1 h.3),
          ),
        )
        | inr missing ↦ rw missing (λ h. cc, λ h. cc)
      ]
