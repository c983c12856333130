-- ===== src/Request/Meta.antt =====
-- The stored metadata: when there is any, and its text.
use mathlib.Core.Option.{some-injective}
use mathlib.Core.List.{append_assoc}
use uptime_service_backend.Base.{
  ◌≡◌, refl, ◌++◌, [], Option, none, if◌then◌else◌, some, inl, inr, Option-cases, some_of_ne_none,
}
use uptime_service_backend.Base.Text.{Bytes, lit, is_empty}
use uptime_service_backend.Base.Int.{is_zero}
use uptime_service_backend.Base.Decimal.{itoa}
use uptime_service_backend.Clock.Civil.{format}
use uptime_service_backend.Keys.{pk_string, marshal_pk}
use uptime_service_backend.Externals.{Externals}
use uptime_service_backend.Request.{
  Base64, SubmitRequest, SubmitRequestData, get_block_data_hash, marshal_meta, make_meta,
  make_meta_to_be_saved,
}

-- The text of the snark work, if there is any, is JSON.
abbrev pub HasJsonSnark : Externals → SubmitRequest → Type 0
HasJsonSnark ext req =
    (w : Base64) → req.content.snark_work ≡ some w → (j : Bytes) × (ext.compact w.json ≡ some j)

-- Then the metadata is written.
pub make_meta_to_be_saved-some :
    (ext : Externals) (req : SubmitRequest) (block : Base64) (remote_addr : Bytes)
    → HasJsonSnark ext req
    → (b : Bytes) × (make_meta_to_be_saved ext req block remote_addr ≡ some b)
unfolding make_meta_to_be_saved marshal_meta make_meta
make_meta_to_be_saved-some ext req block remote_addr h =
    some_of_ne_none (make_meta_to_be_saved ext req block remote_addr) λ failed.
      elim (Option-cases req.content.snark_work) [
        | inl e ↦ let failed' = rw (e, marshal_meta) at failed in cc
        | inr (w, e) ↦ let (j, c) = h w e in let failed' = rw (e, c, marshal_meta) at failed in cc
      ]

module _ (ext : Externals) where
  -- A member of a JSON object with a text as its value, after a comma.
  abbrev pub text_member : Bytes → Bytes → Bytes
  text_member name value = lit ",\"" ++ name ++ lit "\":" ++ ext.quote value

  -- The members that may be missing: the snark work, the port and the commit.
  abbrev pub snark_member : Option Base64 → Option Bytes
  snark_member none = some []
  snark_member (some w) = elim (ext.compact w.json) [
    | none ↦ none
    | some j ↦ some (lit ",\"snark_work\":" ++ j)
  ]

  abbrev pub port_member : SubmitRequestData → Bytes
  port_member content =
      if is_zero content.graphql_control_port
      then []
      else lit ",\"graphql_control_port\":" ++ itoa content.graphql_control_port

  abbrev pub sha_member : SubmitRequestData → Bytes
  sha_member content =
      if is_empty content.built_with_commit_sha
      then []
      else text_member (lit "built_with_commit_sha") content.built_with_commit_sha

  -- The stored metadata of a request, member by member.
  abbrev pub metadata_text : SubmitRequest → Base64 → Bytes → Bytes → Bytes
  metadata_text req block address snark =
      lit "{\"created_at\":"
      ++ ext.quote (format req.content.created_at)
      ++ text_member (lit "peer_id") req.content.peer_id
      ++ snark
      ++ text_member (lit "remote_addr") address
      ++ text_member (lit "submitter") (pk_string ext req.submitter)
      ++ text_member (lit "block_hash") (get_block_data_hash ext block)
      ++ port_member req.content
      ++ sha_member req.content
      ++ lit "}"

  abbrev written : Option Bytes → SubmitRequest → Base64 → Bytes → Option Bytes
  written none req block address = none
  written (some snark) req block address = some (metadata_text req block address snark)

  make_meta_to_be_saved-written :
      (req : SubmitRequest) (block : Base64) (address : Bytes)
      → make_meta_to_be_saved ext req block address
        ≡ written (snark_member req.content.snark_work) req block address
  unfolding make_meta_to_be_saved marshal_meta make_meta marshal_pk
  make_meta_to_be_saved-written req block address = elim (Option-cases req.content.snark_work) [
    | inl e ↦ rw (e, marshal_meta) (simp append_assoc)
    | inr (w, e) ↦ elim (Option-cases (ext.compact w.json)) [
      | inl bad ↦ rw (e, marshal_meta) (rw (bad, snark_member) refl)
      | inr (j, c) ↦ rw (e, marshal_meta) (rw (c, snark_member) (simp append_assoc))
    ]
  ]

  -- What is written is that text.
  pub make_meta_to_be_saved-text :
      (req : SubmitRequest) (block : Base64) (address b : Bytes)
      → make_meta_to_be_saved ext req block address ≡ some b
      → (snark : Bytes) × (snark_member req.content.snark_work ≡ some snark)
        × (metadata_text req block address snark ≡ b)
  make_meta_to_be_saved-text req block address b made =
      elim (Option-cases (snark_member req.content.snark_work)) [
        | inl bad ↦
            let made' = simp (make_meta_to_be_saved-written req block address, bad) at made in cc
        | inr (snark, found) ↦
            let same : some (metadata_text req block address snark) ≡ some b =
              simp (make_meta_to_be_saved-written req block address, found) at made in
            (snark, found, some-injective _ _ same)
      ]
