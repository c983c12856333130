-- ===== src/Integration/Emptying.antt =====
-- src/integration_tests/filesystem_helper.go and aws_helper.go: emptying what the backend stored.
pub mod Exact
use uptime_service_backend.Base.{
  ◌≡◌, Bool, true, false, not, Option, none, some, List, [], ◌∷◌, ◌++◌, if◌then◌else◌,
}
use uptime_service_backend.Base.Text.{Bytes, lit, equal}
use uptime_service_backend.Base.Dict.{Dict}

-- An entry of a directory, by its name.
pub record Entry : Type 0 where
  pub name : Bytes
  pub is_dir : Bool

-- Whether Stat says that a folder is not there, whether it can be read, and the paths at which
-- Remove and RemoveAll fail.
pub record FolderAccess : Type 0 where
  pub is_missing : Bool
  pub read_fails : Bool
  pub remove_fails : Bytes → Bool
  pub remove_all_fails : Bytes → Bool

-- Whether an error is returned, and the entries that are left.
pub record Emptied (A : Type 0) : Type 0 where
  pub fails : Bool
  pub left : A

pub remove_items : FolderAccess → Bytes → List Entry → Emptied (List Entry)
remove_items access path [] = record { fails = false; left = [] }
remove_items access path (item ∷ items) =
    let full_path = path ++ lit "/" ++ item.name in
    let fails =
      if item.is_dir then access.remove_all_fails full_path else access.remove_fails full_path in
    let rest = remove_items access path items in
    if fails then record { fails = true; left = item ∷ items } else rest

pub empty_local_filesystem_storage : FolderAccess → Bytes → List Entry → Emptied (List Entry)
empty_local_filesystem_storage access path items =
    if access.is_missing
    then record { fails = false; left = items }
    else if access.read_fails
    then record { fails = true; left = items }
    else remove_items access path items

-- `delete(m, k)` on the objects of the bucket.
pub remove : Bytes → Dict Bytes → Dict Bytes
remove k [] = []
remove k ((j, v) ∷ store) = let rest = remove k store in if equal j k then rest else (j, v) ∷ rest

module _ (delete_fails : Bytes → Bool) (folder_prefix : Bytes) where
  -- The loop over the listed keys, which leaves the folder's own key alone.
  pub delete_listed : List Bytes → Dict Bytes → Emptied (Dict Bytes)
  delete_listed [] store = record { fails = false; left = store }
  delete_listed (key ∷ keys) store =
      let skip = delete_listed keys store in
      let rest = delete_listed keys (remove key store) in
      if equal key folder_prefix
      then skip
      else if delete_fails key
      then record { fails = true; left = store }
      else rest

  -- `listed` is one call of ListObjectsV2 with the prefix, `none` where it fails.
  pub empty_s3_integration_test_folder :
      (Dict Bytes → Option (List Bytes)) → Dict Bytes → Emptied (Dict Bytes)
  empty_s3_integration_test_folder listed store = elim (listed store) [
    | none ↦ record { fails = true; left = store }
    | some keys ↦ delete_listed keys store
  ]
