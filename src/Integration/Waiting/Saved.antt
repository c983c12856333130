-- ===== src/Integration/Waiting/Saved.antt =====
-- From the backend to its integration tests: the keys under which a submission is saved are those
-- that waiting for the bucket looks for.
use uptime_service_backend.Base.{
  ◌≡◌, refl, ◌∙◌, Bool, true, ◌&&◌, some, List, [], ◌∷◌, ◌++◌, length, take, drop, arith, ℕ, ◌+◌,
  ◌-◌, inl, inr, Bool-cases, length-append, drop-append,
}
use uptime_service_backend.Base.Result.{ok}
use uptime_service_backend.Base.Text.{
  Bytes, lit, equal, equal→eq, equal_refl, has_prefix, has_prefix-append, has_suffix,
}
use uptime_service_backend.Clock.{Instant}
use uptime_service_backend.Clock.Civil.{format_utc}
use uptime_service_backend.Config.{AppConfig}
use uptime_service_backend.Externals.{Externals}
use uptime_service_backend.Keys.{Pk, pk_string}
use uptime_service_backend.Paths.{FilePaths, make_paths}
use uptime_service_backend.Paths.Made.{make_paths-paths_of}
use mathlib.Core.List.{append_assoc}
use uptime_service_backend.Integration.{get_aws_integration_test_folder}
use uptime_service_backend.Integration.Waiting.{any, is_block_key, is_submission_key, bucket_has}
use uptime_service_backend.Integration.Waiting.Found.{bucket_has-both}

add_sub : (n k : ℕ) → n + k - k ≡ n
add_sub n k = omega arith

has_suffix-append : (s suffix : Bytes) → has_suffix (s ++ suffix) suffix ≡ true
unfolding has_suffix
has_suffix-append s suffix =
    let cut : drop (length (s ++ suffix) - length suffix) (s ++ suffix) ≡ suffix =
      rw (length-append s suffix, add_sub (length s) (length suffix)) (drop-append s suffix) in
    rw (cut, equal_refl suffix) (ground (arith, length-append s suffix))

has_affixes :
    (k front rest before back : Bytes)
    → k ≡ front ++ rest
    → k ≡ before ++ back
    → (has_prefix k front && has_suffix k back) ≡ true
has_affixes k front rest before back e e' =
    let starts : has_prefix k front ≡ true = rw e (has_prefix-append front rest) in
    let ends : has_suffix k back ≡ true = rw e' (has_suffix-append before back) in
    rw (starts, ends) refl

-- A key that is listed and passes a test is found by it.
any-listed :
    (p : Bytes → Bool) (key : Bytes) (keys : List Bytes)
    → any (equal key) keys ≡ true
    → p key ≡ true
    → any p keys ≡ true
any-listed p key [] h passes = absurd (ground arith)
any-listed p key (k ∷ keys) h passes = elim (Bool-cases (equal key k)) [
  | inl same ↦ let found : p k ≡ true = rw (← equal→eq key k same) passes in ground (arith)
  | inr other ↦ ground (arith, any-listed p key keys (simp other at h) passes)
]

module _ (ext : Externals) (config : AppConfig) (t : Instant) (hash : Bytes) (pk : Pk)
    (paths : FilePaths) (made : make_paths ext t hash pk ≡ some paths) where
  -- The key of an object in the bucket, as it is saved.
  abbrev pub saved_key : Bytes → Bytes
  saved_key path = config.network_name ++ lit "/" ++ path

  abbrev pub folder : Bytes
  folder = get_aws_integration_test_folder config

  is_block : is_block_key folder (folder ++ paths.block) ≡ true
  is_block =
      let name = hash ++ lit ".dat" in
      rw (make_paths-paths_of ext t hash pk paths made) (
        has_affixes (folder ++ (lit "blocks/" ++ (hash ++ lit ".dat"))) (folder ++ lit "blocks/")
          (hash ++ lit ".dat") (folder ++ lit "blocks/" ++ hash) (lit ".dat")
          (simp append_assoc refl) (simp append_assoc refl))

  is_submission : is_submission_key folder (take 10 (format_utc t)) (folder ++ paths.meta) ≡ true
  is_submission =
      let date = take 10 (format_utc t) in
      let file = format_utc t ++ lit "-" ++ pk_string ext pk in
      rw (make_paths-paths_of ext t hash pk paths made) (
        has_affixes _ (folder ++ lit "submissions/" ++ date ++ lit "/") (file ++ lit ".json")
          (folder ++ lit "submissions/" ++ date ++ lit "/" ++ file) (lit ".json")
          (simp append_assoc refl) (simp append_assoc refl))

  -- Whatever else is listed, waiting for the bucket is over once the two keys under which a
  -- submission is saved, in a network whose name has no slash at its ends, are listed on the UTC
  -- date of the submission.
  pub make_paths-bucket_has :
      (keys : List Bytes)
      → folder ≡ config.network_name ++ lit "/"
      → any (equal (saved_key paths.block)) keys ≡ true
      → any (equal (saved_key paths.meta)) keys ≡ true
      → bucket_has folder (take 10 (format_utc t)) (some keys) ≡ ok true
  make_paths-bucket_has keys name block meta =
      let date = take 10 (format_utc t) in
      let block_found : any (is_block_key folder) keys ≡ true =
        any-listed (is_block_key folder) (folder ++ paths.block) keys (rw name block) is_block in
      let meta_found : any (is_submission_key folder date) keys ≡ true =
        any-listed (is_submission_key folder date) (folder ++ paths.meta) keys (rw name meta)
          is_submission in
      bucket_has-both folder date (some keys) ∙ rw (block_found, meta_found) refl
