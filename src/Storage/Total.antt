-- ===== src/Storage/Total.antt =====
-- The database backends read what the handler saves without a panic.
use uptime_service_backend.Base.{
  if◌then◌else◌, ◌≡◌, refl, some, [], ◌∷◌, ◌++◌, inl, inr, Option-cases,
}
use uptime_service_backend.Base.Text.{Bytes, lit, has_prefix, is_empty}
use uptime_service_backend.Storage.{
  Submission, Readers, Prepared, prepared, no_valid_submission, merge_submission, absorb,
  absorb_all, empty_submission, object_to_save_to_submission,
}
use uptime_service_backend.Storage.Order.{absorb-block}
use uptime_service_backend.Storage.Names.{Without}
use uptime_service_backend.Storage.Roundtrip.{meta_path, parse_submission_bytes-path}

module _ (readers : Readers) (date ts pk content : Bytes) (wd : Without b'/' date)
    (wt : Without b'/' ts) (wp : Without b'/' pk) (hp : Without b'-' pk) where
  absorb-meta_path :
      (acc : Submission)
      → (acc' : Submission) × (absorb readers acc (meta_path date ts pk, content) ≡ some acc')
  unfolding absorb has_prefix
  absorb-meta_path acc =
      let e = parse_submission_bytes-path readers date ts pk content wd wt wp hp in
      elim (Option-cases (readers.parse_time ts)) [
        | inl bad ↦ (acc, rw (e, absorb) (rw bad refl))
        | inr (at, time) ↦ elim (Option-cases (readers.unmarshal_submission content)) [
          | inl bad ↦ (acc, rw (e, absorb) (rw (time, bad) refl))
          | inr (s, json) ↦ (
            merge_submission acc (record s { submitted_at_date = date; submitted_at = at }),
            rw (e, absorb) (rw (time, json) refl),
          )
        ]
      ]

  absorb-block_path :
      (name raw : Bytes) (acc : Submission)
      → (acc' : Submission) × (absorb readers acc (lit "blocks/" ++ name, raw) ≡ some acc')
  unfolding has_prefix
  absorb-block_path name raw acc =
      (_, absorb-block readers [] (lit "blocks/" ++ name) [] raw acc acc refl refl)

  -- In either order of the map the two objects give a row, or are no valid submission.
  pub object_to_save_to_submission-returns :
      (name raw : Bytes)
      → ((p : Prepared) × (object_to_save_to_submission readers
              ((meta_path date ts pk, content) ∷ (lit "blocks/" ++ name, raw) ∷ [])
            ≡ some p))
        × ((p : Prepared) × (object_to_save_to_submission readers
                ((lit "blocks/" ++ name, raw) ∷ (meta_path date ts pk, content) ∷ [])
              ≡ some p))
  unfolding object_to_save_to_submission absorb_all
  object_to_save_to_submission-returns name raw =
      let (m, meta) = absorb-meta_path empty_submission in
      let (mb, meta_block) = absorb-block_path name raw m in
      let (b, block) = absorb-block_path name raw empty_submission in
      let (bm, block_meta) = absorb-meta_path b in
      (
        (
          if is_empty mb.submitter then no_valid_submission else prepared mb,
          rw (meta, object_to_save_to_submission) (rw (meta_block, absorb_all) refl),
        ),
        (
          if is_empty bm.submitter then no_valid_submission else prepared bm,
          rw (block, object_to_save_to_submission) (rw (block_meta, absorb_all) refl),
        ),
      )
