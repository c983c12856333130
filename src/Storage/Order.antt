-- ===== src/Storage/Order.antt =====
-- The loop over a Go map meets its entries in any order: when that matters.
use uptime_service_backend.Base.{◌≡◌, ◌↔◌, ap, sym, true, false, Option, none, some, [], ◌∷◌, arith}
use uptime_service_backend.Base.Text.{Bytes, lit, has_prefix}
use uptime_service_backend.Storage.{
  Submission, Readers, parsed, parse_submission_bytes, parse_block_bytes, merge_submission,
  merge_block, absorb, absorb_all, empty_submission,
}

module _ (readers : Readers) (meta block content raw : Bytes) (s : Submission) where
  pub absorb-meta :
      (acc : Submission)
      → has_prefix meta (lit "submissions/") ≡ true
      → parse_submission_bytes readers content meta ≡ parsed s
      → absorb readers acc (meta, content) ≡ some (merge_submission acc s)
  unfolding absorb
  absorb-meta acc m p = rw (m, absorb) (rw (p, absorb))

  pub absorb-block :
      (acc : Submission)
      → has_prefix block (lit "submissions/") ≡ false
      → has_prefix block (lit "blocks/") ≡ true
      → absorb readers acc (block, raw) ≡ some (merge_block acc (parse_block_bytes raw block))
  unfolding absorb
  absorb-block acc b b' = rw (b, absorb) (rw (b', absorb))

  pub absorb_all-meta_first :
      has_prefix meta (lit "submissions/") ≡ true
      → has_prefix block (lit "submissions/") ≡ false
      → has_prefix block (lit "blocks/") ≡ true
      → parse_submission_bytes readers content meta ≡ parsed s
      → absorb_all readers empty_submission ((meta, content) ∷ (block, raw) ∷ [])
        ≡ some (merge_block (merge_submission empty_submission s) (parse_block_bytes raw block))
  unfolding absorb_all absorb merge_block has_prefix parse_block_bytes merge_submission
  absorb_all-meta_first m b b' p =
      rw (absorb-meta empty_submission m p)
        (rw (absorb-block (merge_submission empty_submission s) b b'))

  pub absorb_all-block_first :
      has_prefix meta (lit "submissions/") ≡ true
      → has_prefix block (lit "submissions/") ≡ false
      → has_prefix block (lit "blocks/") ≡ true
      → parse_submission_bytes readers content meta ≡ parsed s
      → absorb_all readers empty_submission ((block, raw) ∷ (meta, content) ∷ [])
        ≡ some (merge_submission (merge_block empty_submission (parse_block_bytes raw block)) s)
  unfolding absorb_all absorb merge_submission has_prefix merge_block
  absorb_all-block_first m b b' p =
      rw (absorb-block empty_submission b b')
        (rw (absorb-meta (merge_block empty_submission (parse_block_bytes raw block)) m p))

  hash_of : Option Submission → Bytes
  hash_of none = []
  hash_of (some x) = x.block_hash

  -- Metadata that reads as a submission and a block give the same result in both orders exactly if
  -- the metadata and the block's path name the same block hash.
  pub absorb_all-order :
      has_prefix meta (lit "submissions/") ≡ true
      → has_prefix block (lit "submissions/") ≡ false
      → has_prefix block (lit "blocks/") ≡ true
      → parse_submission_bytes readers content meta ≡ parsed s
      → (absorb_all readers empty_submission ((meta, content) ∷ (block, raw) ∷ [])
          ≡ absorb_all readers empty_submission ((block, raw) ∷ (meta, content) ∷ []))
        ↔ (s.block_hash ≡ (parse_block_bytes raw block).block_hash)
  unfolding merge_submission merge_block hash_of
  absorb_all-order m b b' p =
      rw (absorb_all-meta_first m b b' p, absorb_all-block_first m b b' p)
        (λ h. sym (ap hash_of h), λ h. ground (arith, h))
