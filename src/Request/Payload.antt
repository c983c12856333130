-- ===== src/Request/Payload.antt =====
-- The bytes that a signature covers.
use mathlib.Core.List.{append_assoc, append-nil}
use uptime_service_backend.Base.{
  ◌≡◌, refl, true, Option, none, some, [], ◌++◌, if◌then◌else◌, inl, inr, Bool-cases, Option-cases,
  arith,
}
use uptime_service_backend.Base.Int.{is_zero}
use uptime_service_backend.Base.Text.{Bytes, lit, is_empty}
use uptime_service_backend.Base.Decimal.{itoa}
use uptime_service_backend.Clock.Civil.{format_utc}
use uptime_service_backend.Request.{
  Base64, SubmitRequest, SubmitRequestData, check_required_fields, write, quoted, write_snark_work,
  write_port, write_commit_sha, make_sign_payload,
}

-- The optional parts: absent at the zero value.
abbrev pub snark_part : Option Base64 → Bytes
snark_part none = []
snark_part (some w) = lit ",\"snark_work\":" ++ w.json

abbrev pub port_part : SubmitRequestData → Bytes
port_part req =
    if is_zero req.graphql_control_port
    then []
    else lit ",\"graphql_control_port\":" ++ itoa req.graphql_control_port

abbrev pub sha_part : SubmitRequestData → Bytes
sha_part req =
    if is_empty req.built_with_commit_sha
    then []
    else lit ",\"built_with_commit_sha\":\"" ++ req.built_with_commit_sha ++ lit "\""

-- The payload as one text: the keys in alphabetical order up to the optional parts.
abbrev pub payload : Base64 → SubmitRequestData → Bytes
payload block req =
    lit "{\"block\":"
    ++ block.json
    ++ lit ",\"created_at\":"
    ++ quoted (format_utc req.created_at.instant)
    ++ lit ",\"peer_id\":\""
    ++ req.peer_id
    ++ lit "\""
    ++ snark_part req.snark_work
    ++ port_part req
    ++ sha_part req
    ++ lit "}"

-- Writing to a buffer with no error appends, and leaves it with no error.
write-ok :
    (buf b : Bytes)
    → write (record { buf = buf; error = none }) b ≡ record { buf = buf ++ b; error = none }
unfolding write
write-ok buf b = refl

write_snark_work-ok :
    (req : SubmitRequestData) (buf : Bytes)
    → write_snark_work req (record { buf = buf; error = none })
      ≡ record { buf = buf ++ snark_part req.snark_work; error = none }
unfolding write_snark_work
write_snark_work-ok req buf = elim (Option-cases req.snark_work) [
  | inl e ↦ rw (e, write_snark_work) (rw append-nil)
  | inr (w, e) ↦ rw (e, write_snark_work) (simp (write-ok, append_assoc))
]

write_port-ok :
    (req : SubmitRequestData) (buf : Bytes)
    → write_port req (record { buf = buf; error = none })
      ≡ record { buf = buf ++ port_part req; error = none }
unfolding write_port
write_port-ok req buf = elim (Bool-cases (is_zero req.graphql_control_port)) [
  | inl e ↦ rw e (rw append-nil)
  | inr e ↦ rw e (simp (write-ok, append_assoc))
]

write_commit_sha-ok :
    (req : SubmitRequestData) (buf : Bytes)
    → write_commit_sha req (record { buf = buf; error = none })
      ≡ record { buf = buf ++ sha_part req; error = none }
unfolding write_commit_sha
write_commit_sha-ok req buf = elim (Bool-cases (is_empty req.built_with_commit_sha)) [
  | inl e ↦ rw e (rw append-nil)
  | inr e ↦ rw e (simp (write-ok, append_assoc))
]

-- Making the payload of a request with a block never fails, and gives the text `payload`.
pub make_sign_payload-payload :
    (req : SubmitRequestData) (block : Base64)
    → req.block ≡ some block
    → make_sign_payload req ≡ some (record { buf = payload block req; error = none })
unfolding make_sign_payload
make_sign_payload-payload req block e =
    rw (e, make_sign_payload)
      (simp (write-ok, write_snark_work-ok, write_port-ok, write_commit_sha-ok, append_assoc))

-- A request with all required fields has a block.
pub check_required_fields-block :
    (req : SubmitRequest)
    → check_required_fields req ≡ true
    → (block : Base64) × (req.content.block ≡ some block)
unfolding check_required_fields
check_required_fields-block req h = elim (Option-cases req.content.block) [
  | inl missing ↦ absurd (ground (arith, missing))
  | inr found ↦ found
]
