-- ===== src/Integration/Waiting.antt =====
-- src/integration_tests/filesystem_helper.go, aws_helper.go, aws_keyspaces_helper.go and
-- postgres_helper.go: waiting until the backend has stored something.
pub mod Found
pub mod Saved
use uptime_service_backend.Base.{
  ℕ, zero, suc, ◌≡◌, Bool, true, false, not, ◌&&◌, ◌||◌, Option, none, some, List, [], ◌∷◌, ◌++◌,
  ltb, length, if◌then◌else◌,
}
use uptime_service_backend.Base.Result.{Result, ok, err, ◌>>=◌, or_fail}
use uptime_service_backend.Base.Text.{Bytes, lit, is_empty, has_prefix, has_suffix, contains}
use uptime_service_backend.Backoff.{Error}
use uptime_service_backend.Integration.{Event, WaitError, timed_out, failed, poll}

abbrev pub any {ℓ} : {A : Type ℓ} → (A → Bool) → List A → Bool
any p [] = false
any p (x ∷ xs) = p x || any p xs

-- What os.ReadDir answers for the storage directory, for its blocks and for the submissions of a
-- date, by names; `none` is an error.
pub record Folders : Type 0 where
  pub items : Option (List Bytes)
  pub blocks : Option (List Bytes)
  pub submissions : Option (List Bytes)

-- A loop that ends at the first name that passes.
unfoldable pub has_name : (Bytes → Bool) → Option (List Bytes) → Bool
has_name p none = false
has_name p (some names) = any p names

unfoldable pub local_storage_has : Bytes → Folders → Result WaitError Bool
local_storage_has date folders = do
  items ← or_fail folders.items failed
  let has_blocks = has_name (λ name. has_suffix name (lit ".dat")) folders.blocks
  let has_submissions_for_today =
      has_name (λ name. has_suffix name (lit ".json") && contains name date) folders.submissions
  ok (ltb 0 (length items) && (has_blocks && has_submissions_for_today))

unfoldable pub wait_until_local_storage_has_blocks_and_submissions :
    Bytes → List (Event Folders) → Option (Result WaitError (Unit {0}))
wait_until_local_storage_has_blocks_and_submissions date = poll (local_storage_has date)

abbrev pub is_block_key : Bytes → Bytes → Bool
is_block_key folder_prefix key =
    has_prefix key (folder_prefix ++ lit "blocks/") && has_suffix key (lit ".dat")

abbrev pub is_submission_key : Bytes → Bytes → Bytes → Bool
is_submission_key folder_prefix date key =
    has_prefix key (folder_prefix ++ lit "submissions/" ++ date ++ lit "/")
    && has_suffix key (lit ".json")

-- The loop over the listed keys, which sets two flags.
pub check_keys : Bytes → Bytes → List Bytes → Bool × Bool → Bool × Bool
check_keys folder_prefix date [] flags = flags
check_keys folder_prefix date (key ∷ keys) (has_blocks, has_submissions) =
    check_keys folder_prefix date keys (
      (if is_block_key folder_prefix key then true else has_blocks),
      (if is_submission_key folder_prefix date key then true else has_submissions),
    )

-- A listing, `none` for one that fails.
pub bucket_has : Bytes → Bytes → Option (List Bytes) → Result WaitError Bool
bucket_has folder_prefix date objects = do
  keys ← or_fail objects failed
  let flags =
      if ltb 1 (length keys)
      then check_keys folder_prefix date keys (false, false)
      else (false, false)
  ok (flags.0 && flags.1)

pub wait_until_s3_bucket_has_blocks_and_submissions :
    Bytes → Bytes → List (Event (Option (List Bytes))) → Option (Result WaitError (Unit {0}))
wait_until_s3_bucket_has_blocks_and_submissions folder_prefix date =
    poll (bucket_has folder_prefix date)

-- What the query for a submission of a date answers.
pub data Answer : Type 0 where
  not_found : Answer
  query_failed : Answer
  row : Bytes → Bytes → Bytes → Answer

unfoldable pub check_for_submissions : Answer → Result WaitError Bool
check_for_submissions not_found = ok false
check_for_submissions query_failed = err failed
check_for_submissions (row submitter block_hash raw_block) =
    if is_empty submitter || is_empty block_hash || is_empty raw_block then ok false else ok true

-- A session that cannot be opened is an error before the loop.
unfoldable pub wait_until_keyspaces_has_blocks_and_submissions :
    Bool → List (Event Answer) → Option (Result WaitError (Unit {0}))
wait_until_keyspaces_has_blocks_and_submissions opened events =
    if opened then poll check_for_submissions events else some (err failed)

-- The number of rows, `none` where the query fails.
unfoldable pub count_submissions : Option ℕ → Result WaitError Bool
count_submissions rows = do count ← or_fail rows failed; ok (ltb 0 count)

unfoldable pub wait_until_postgres_has_submissions :
    List (Event (Option ℕ)) → Option (Result WaitError (Unit {0}))
wait_until_postgres_has_submissions = poll count_submissions
