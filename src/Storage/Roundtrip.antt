-- ===== src/Storage/Roundtrip.antt =====
-- From the handler to a row: the objects that ServeHTTP saves are read back as one submission.
use uptime_service_backend.Base.{
  ◌≡◌, refl, ap, sym, ◌∙◌, false, some, [], ◌∷◌, ◌++◌, arith, take-append, drop-append,
}
use uptime_service_backend.Base.Text.{Bytes, lit, has_prefix, is_empty}
use uptime_service_backend.Clock.{Instant}
use uptime_service_backend.Paths.{ObjectsToSave}
use uptime_service_backend.Storage.{
  Submission, Readers, and_then, bad_time, bad_json, prepared, parsed, parse_submission_bytes,
  parse_block_bytes, merge_submission, merge_block, absorb_all, empty_submission, split, base,
  ext_of, Block, object_to_save_to_submission,
}
use uptime_service_backend.Storage.Order.{absorb_all-meta_first, absorb_all-block_first}
use uptime_service_backend.Storage.Names.{
  Without, split-two, split-three, last_index-last, trim_suffix-append, append-Without,
}

-- Base58 text has none of the bytes at which paths are split.
pub record IsPathText (s : Bytes) : Type 0 where
  pub no_slash : Without b'/' s
  pub no_hyphen : Without b'-' s
  pub no_dot : Without b'.' s

abbrev pub file_name : Bytes → Bytes → Bytes
file_name ts pk = ts ++ b'-' ∷ pk

abbrev pub meta_path : Bytes → Bytes → Bytes → Bytes
meta_path date ts pk = lit "submissions" ++ b'/' ∷ (date ++ b'/' ∷ (file_name ts pk ++ lit ".json"))

module _ (readers : Readers) where
  -- What is left of reading such a path: the time, and the metadata.
  pub parse_submission_bytes-path :
      (date ts pk content : Bytes)
      → Without b'/' date
      → Without b'/' ts
      → Without b'/' pk
      → Without b'-' pk
      → parse_submission_bytes readers content (meta_path date ts pk)
        ≡ and_then (readers.parse_time ts) bad_time (λ at.
          and_then
            (readers.unmarshal_submission content)
            bad_json
            (λ s. parsed (record s { submitted_at_date = date; submitted_at = at })))
  unfolding parse_submission_bytes
  parse_submission_bytes-path date ts pk content wd wt wp hp =
      let name = file_name ts pk in
      let whole : Without b'/' (name ++ lit ".json") =
        append-Without b'/' name (lit ".json") (append-Without b'/' ts (b'-' ∷ pk) wt (refl, wp))
          (ground arith) in
      let parts : split b'/' (meta_path date ts pk)
          ≡ lit "submissions" ∷ date ∷ (name ++ lit ".json") ∷ [] =
        split-three b'/' (lit "submissions") date (name ++ lit ".json") (ground arith) wd whole in
      rw (parts, parse_submission_bytes)
        (rw (trim_suffix-append name (lit ".json"))
          (rw (last_index-last b'-' ts pk hp) (rw (take-append ts (b'-' ∷ pk)) refl)))

  parse_submission_bytes-meta_path :
      (date ts pk content : Bytes) (at : Instant) (s : Submission)
      → Without b'/' date
      → Without b'/' ts
      → Without b'/' pk
      → Without b'-' pk
      → readers.parse_time ts ≡ some at
      → readers.unmarshal_submission content ≡ some s
      → parse_submission_bytes readers content (meta_path date ts pk)
        ≡ parsed (record s { submitted_at_date = date; submitted_at = at })
  parse_submission_bytes-meta_path date ts pk content at s wd wt wp hp time json =
      parse_submission_bytes-path date ts pk content wd wt wp hp ∙ rw time (rw json refl)

-- The block's file name, and its extension.
base-file : (name : Bytes) → Without b'/' name → base (lit "blocks/" ++ name) ≡ name
unfolding base
base-file name w = rw (split-two b'/' (lit "blocks") name (ground arith) w, base) refl

ext_of-dat : (hash : Bytes) → ext_of (hash ++ lit ".dat") ≡ lit ".dat"
unfolding ext_of
ext_of-dat hash =
    rw (last_index-last b'.' hash (lit "dat") (ground arith), ext_of)
      (drop-append hash (lit ".dat"))

parse_block_bytes-path :
    (hash raw : Bytes)
    → Without b'/' hash
    → parse_block_bytes raw (lit "blocks/" ++ (hash ++ lit ".dat"))
      ≡ record { block_hash = hash; raw_block = raw }
unfolding parse_block_bytes
parse_block_bytes-path hash raw w =
    let file = hash ++ lit ".dat" in
    let whole : Without b'/' file = append-Without b'/' hash (lit ".dat") w (ground arith) in
    rw (base-file file whole, parse_block_bytes)
      (rw (ext_of-dat hash, parse_block_bytes) (rw (trim_suffix-append hash (lit ".dat")) refl))

-- The row of a submission: what its metadata reads as, with the times of the path and the block.
abbrev pub row : Submission → Bytes → Instant → Bytes → Submission
row s date at raw = record s { submitted_at_date = date; submitted_at = at; raw_block = some raw }

pub object_to_save_to_submission-prepared :
    (readers : Readers) (objs : ObjectsToSave) (s : Submission)
    → absorb_all readers empty_submission objs ≡ some s
    → is_empty s.submitter ≡ false
    → object_to_save_to_submission readers objs ≡ some (prepared s)
unfolding object_to_save_to_submission
object_to_save_to_submission-prepared readers objs s absorbed named =
    rw (absorbed, object_to_save_to_submission) (rw named refl)

-- The two objects of a submission, in both orders of the map, give its row.
module _ (readers : Readers) (date ts pk hash content raw : Bytes) (at : Instant) (s : Submission)
    (wd : Without b'/' date) (wt : Without b'/' ts) (wp : Without b'/' pk) (hp : Without b'-' pk)
    (wh : Without b'/' hash) (time : readers.parse_time ts ≡ some at)
    (json : readers.unmarshal_submission content ≡ some s) (same : s.block_hash ≡ hash) where
  timed : Submission
  timed = record s { submitted_at_date = date; submitted_at = at }

  meta_read : parse_submission_bytes readers content (meta_path date ts pk) ≡ parsed timed
  unfolding timed
  meta_read = parse_submission_bytes-meta_path readers date ts pk content at s wd wt wp hp time json

  pub absorb_all-meta_first_row :
      absorb_all readers empty_submission
        ((meta_path date ts pk, content) ∷ (lit "blocks/" ++ (hash ++ lit ".dat"), raw) ∷ [])
      ≡ some (row s date at raw)
  unfolding has_prefix merge_block merge_submission timed
  absorb_all-meta_first_row =
      absorb_all-meta_first readers (meta_path date ts pk) (lit "blocks/" ++ (hash ++ lit ".dat"))
        content raw timed refl refl refl meta_read
      ∙ ap (λ (b : Block). some (merge_block (merge_submission empty_submission timed) b))
          (parse_block_bytes-path hash raw wh)
      ∙ ap (λ (h : Bytes). some (record (row s date at raw) { block_hash = h })) (sym same)

  pub absorb_all-block_first_row :
      absorb_all readers empty_submission
        ((lit "blocks/" ++ (hash ++ lit ".dat"), raw) ∷ (meta_path date ts pk, content) ∷ [])
      ≡ some (row s date at raw)
  unfolding has_prefix merge_block merge_submission timed
  absorb_all-block_first_row =
      absorb_all-block_first readers (meta_path date ts pk) (lit "blocks/" ++ (hash ++ lit ".dat"))
        content raw timed refl refl refl meta_read
      ∙ ap (λ (b : Block). some (merge_submission (merge_block empty_submission b) timed))
          (parse_block_bytes-path hash raw wh)
