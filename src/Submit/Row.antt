-- ===== src/Submit/Row.antt =====
-- From the handler to a database row: src/delegation_backend/submit.go writes the objects that
-- submission.go reads.
use mathlib.Core.List.{append_assoc}
use uptime_service_backend.Base.{
  ◌≡◌, refl, false, Option, none, some, [], ◌∷◌, ◌++◌, arith, ltb, inl, inr, length, take,
  Option-cases,
}
use uptime_service_backend.Base.Int.{pos}
use uptime_service_backend.Base.Text.{Bytes, lit, is_empty, equal}
use uptime_service_backend.Base.Dict.{insert}
use uptime_service_backend.Base.Result.{ok}
use uptime_service_backend.Clock.{Instant}
use uptime_service_backend.Clock.Civil.{format_utc}
use uptime_service_backend.Clock.Layout.{format_utc-length}
use uptime_service_backend.Externals.{Externals}
use uptime_service_backend.Keys.{pk_string}
use uptime_service_backend.Request.{
  Base64, SubmitRequest, get_block_data_hash, make_meta_to_be_saved,
}
use uptime_service_backend.Request.Meta.{snark_member, metadata_text, make_meta_to_be_saved-text}
use uptime_service_backend.Paths.{ObjectsToSave, make_paths}
use uptime_service_backend.Storage.{Submission, Readers, prepared, object_to_save_to_submission}
use uptime_service_backend.Storage.Names.{Without, take-Without, format_utc-Without}
use uptime_service_backend.Storage.Roundtrip.{
  meta_path, row, object_to_save_to_submission-prepared, absorb_all-meta_first_row,
  absorb_all-block_first_row,
}
use uptime_service_backend.Submit.{HttpRequest, client_address, objects_to_save}

abbrev decoded_of : Option Base64 → Option Bytes
decoded_of none = none
decoded_of (some w) = some w.decoded

module _ (ext : Externals) where
  -- What the metadata of a request says, as a submission.
  abbrev pub described : SubmitRequest → Base64 → Bytes → Instant → Submission
  described req block address created = record {
    block_hash = get_block_data_hash ext block;
    submitted_at_date = [];
    submitted_at = pos 0;
    created_at = created;
    remote_addr = address;
    peer_id = req.content.peer_id;
    submitter = pk_string ext req.submitter;
    raw_block = none;
    snark_work = decoded_of req.content.snark_work;
    graphql_control_port = req.content.graphql_control_port;
    built_with_commit_sha = req.content.built_with_commit_sha;
  }

  -- The libraries read the time that makePaths wrote, and a JSON object member by member, where
  -- each member of the request stands under its own name; base58 texts are not empty and have none
  -- of the bytes at which paths are split.
  pub record IsReadBack (readers : Readers) (req : SubmitRequest) (block : Base64) (address : Bytes)
      (t at created : Instant) : Type 0 where
    pub time : readers.parse_time (format_utc t) ≡ some at
    pub metadata :
        (snark : Bytes)
        → snark_member ext req.content.snark_work ≡ some snark
        → readers.unmarshal_submission (metadata_text ext req block address snark)
          ≡ some (described req block address created)
    pub key_text : is_empty (pk_string ext req.submitter) ≡ false
    pub key_no_slash : Without b'/' (pk_string ext req.submitter)
    pub key_no_hyphen : Without b'-' (pk_string ext req.submitter)
    pub hash_no_slash : Without b'/' (get_block_data_hash ext block)

  abbrev pub two : SubmitRequest → Base64 → Instant → Bytes → ObjectsToSave
  two req block t b =
      (meta_path (take 10 (format_utc t)) (format_utc t) (pk_string ext req.submitter), b)
      ∷ (lit "blocks/" ++ (get_block_data_hash ext block ++ lit ".dat"), block.decoded)
      ∷ []

  -- The two objects that are made of a request, where they are made.
  pub objects_to_save-two :
      (req : SubmitRequest) (block : Base64) (r : HttpRequest) (t : Instant) (objs : ObjectsToSave)
      → req.content.block ≡ some block
      → objects_to_save ext req r t ≡ ok objs
      → (b : Bytes) × (make_meta_to_be_saved ext req block (client_address ext r) ≡ some b)
        × (objs ≡ two req block t b)
  unfolding objects_to_save make_paths insert equal
  objects_to_save-two req block r t objs found made =
      let long : ltb (length (format_utc t)) 10 ≡ false = ground (arith, format_utc-length t) in
      elim (Option-cases (make_meta_to_be_saved ext req block (client_address ext r))) [
        | inl bad ↦ let made' = simp (found, long, bad) at made in cc
        | inr (b, written) ↦
            let both : objects_to_save ext req r t ≡ ok (two req block t b) =
              simp (objects_to_save, found, long, written, append_assoc) in
            (b, written, cc)
      ]

  -- Where the libraries read back what they wrote (a time, and a JSON object in which each field of
  -- the request is a member under its own name), the objects that ServeHTTP makes of a request, if
  -- it makes them, are two, and in either order of the map the database backends read from them
  -- the one row that has the request's fields, its block, the hash of the block and the time and
  -- date at which it was submitted.
  pub objects_to_save-row :
      (readers : Readers) (req : SubmitRequest) (block : Base64) (r : HttpRequest)
      (t at created : Instant) (objs : ObjectsToSave)
      → req.content.block ≡ some block
      → IsReadBack readers req block (client_address ext r) t at created
      → objects_to_save ext req r t ≡ ok objs
      → (a b : Bytes × Bytes) × (objs ≡ a ∷ b ∷ [])
        × (object_to_save_to_submission readers (a ∷ b ∷ [])
            ≡ some (
                prepared (
                  row
                    (described req block (client_address ext r) created)
                    (take 10 (format_utc t))
                    at
                    block.decoded)))
        × (object_to_save_to_submission readers (b ∷ a ∷ [])
            ≡ some (
                prepared (
                  row
                    (described req block (client_address ext r) created)
                    (take 10 (format_utc t))
                    at
                    block.decoded)))
  objects_to_save-row readers req block r t at created objs found back made =
      let (b, written, same) = objects_to_save-two req block r t objs found made in
      let ts = format_utc t in
      let s = described req block (client_address ext r) created in
      let (snark, member, text) =
        make_meta_to_be_saved-text ext req block (client_address ext r) b written in
      let read : readers.unmarshal_submission b ≡ some s =
        rw (← text) (back.metadata snark member) in
      let no_slash = format_utc-Without t in
      let date = take-Without b'/' 10 ts no_slash in
      let meta_first =
        absorb_all-meta_first_row readers (take 10 ts) ts (pk_string ext req.submitter)
          (get_block_data_hash ext block) b block.decoded at s date no_slash back.key_no_slash
          back.key_no_hyphen back.hash_no_slash back.time read refl in
      let block_first =
        absorb_all-block_first_row readers (take 10 ts) ts (pk_string ext req.submitter)
          (get_block_data_hash ext block) b block.decoded at s date no_slash back.key_no_slash
          back.key_no_hyphen back.hash_no_slash back.time read refl in
      (
        _,
        _,
        same,
        object_to_save_to_submission-prepared readers _ _ meta_first back.key_text,
        object_to_save_to_submission-prepared readers _ _ block_first back.key_text,
      )
