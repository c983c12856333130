-- ===== src/Integration/Emptying/Exact.antt =====
-- src/integration_tests/aws_helper.go and filesystem_helper.go: what is left after emptying.
use uptime_service_backend.Base.{
  ◌≡◌, ◌∙◌, refl, Bool, true, false, not, ◌&&◌, Option, none, some, List, [], ◌∷◌, ◌++◌, arith,
  if◌then◌else◌, inl, inr, Bool-cases,
}
use uptime_service_backend.Base.Text.{Bytes, lit, equal, equal_iff}
use uptime_service_backend.Base.Dict.{Dict, lookup}
use uptime_service_backend.Integration.Waiting.{any}
use uptime_service_backend.Integration.Emptying.{
  Entry, FolderAccess, remove_items, empty_local_filesystem_storage, remove, delete_listed,
  empty_s3_integration_test_folder,
}

lookup-remove :
    (k j : Bytes) (store : Dict Bytes)
    → lookup j (remove k store) ≡ (if equal k j then none else lookup j store)
unfolding lookup remove
lookup-remove k j [] = ground arith
lookup-remove k j ((other, v) ∷ store) =
    ground (arith, lookup-remove k j store, equal_iff other k, equal_iff other j, equal_iff k j)

-- What is left at a key, by whether the key was listed; the folder's own is left alone.
abbrev pub left_at : Bytes → List Bytes → Bytes → Dict Bytes → Option Bytes
left_at folder_prefix keys key store =
    if any (λ k. equal k key) keys && not (equal key folder_prefix) then none else lookup key store

module _ (delete_fails : Bytes → Bool) (folder_prefix : Bytes) where
  left_at-folder :
      (k : Bytes) (keys : List Bytes) (key : Bytes) (store : Dict Bytes)
      → equal k folder_prefix ≡ true
      → left_at folder_prefix keys key store ≡ left_at folder_prefix (k ∷ keys) key store
  left_at-folder k keys key store same =
      ground (arith, equal_iff k folder_prefix, equal_iff k key, equal_iff key folder_prefix)

  left_at-removed :
      (k : Bytes) (keys : List Bytes) (key : Bytes) (store : Dict Bytes)
      → equal k folder_prefix ≡ false
      → left_at folder_prefix keys key (remove k store) ≡ left_at folder_prefix (k ∷ keys) key store
  left_at-removed k keys key store other = ground (
    arith,
    lookup-remove k key store,
    equal_iff k folder_prefix,
    equal_iff k key,
    equal_iff key folder_prefix,
  )

  delete_listed-left :
      (keys : List Bytes) (key : Bytes) (store : Dict Bytes)
      → any delete_fails keys ≡ false
      → ((delete_listed delete_fails folder_prefix keys store).fails ≡ false)
        × (lookup key (delete_listed delete_fails folder_prefix keys store).left
            ≡ left_at folder_prefix keys key store)
  unfolding delete_listed
  delete_listed-left [] key store h = (refl, refl)
  delete_listed-left (k ∷ keys) key store h =
      let here : delete_fails k ≡ false = ground arith in
      let there : any delete_fails keys ≡ false = ground arith in
      let skip = delete_listed-left keys key store there in
      let deleted = delete_listed-left keys key (remove k store) there in
      elim (Bool-cases (equal k folder_prefix)) [
        | inl same ↦ rw same (skip.0, skip.1 ∙ left_at-folder k keys key store same)
        | inr other ↦
            rw (other, here) (deleted.0, deleted.1 ∙ left_at-removed k keys key store other)
      ]

  -- Where the listing of the folder and every deletion of a listed key succeed, emptying the
  -- folder in the bucket returns no error, and afterwards the listed objects are gone, except one
  -- at the key of the folder itself, and every other object has the bytes that it had.
  pub empty_s3_integration_test_folder-left :
      (listed : Dict Bytes → Option (List Bytes)) (keys : List Bytes) (key : Bytes)
      (store : Dict Bytes)
      → listed store ≡ some keys
      → any delete_fails keys ≡ false
      → ((empty_s3_integration_test_folder delete_fails folder_prefix listed store).fails ≡ false)
        × (lookup key
              (empty_s3_integration_test_folder delete_fails folder_prefix listed store).left
            ≡ left_at folder_prefix keys key store)
  unfolding empty_s3_integration_test_folder
  empty_s3_integration_test_folder-left listed keys key store found deletes =
      rw (found, empty_s3_integration_test_folder) (delete_listed-left keys key store deletes)

-- An entry that cannot be removed.
abbrev pub stays : FolderAccess → Bytes → Entry → Bool
stays access path item =
    let full_path = path ++ lit "/" ++ item.name in
    if item.is_dir then access.remove_all_fails full_path else access.remove_fails full_path

-- Entries that can be removed are removed, one after the other.
remove_items-left :
    (access : FolderAccess) (path : Bytes) (front : List Entry) (rest : List Entry)
    → any (stays access path) front ≡ false
    → remove_items access path (front ++ rest) ≡ remove_items access path rest
unfolding remove_items
remove_items-left access path [] rest h = refl
remove_items-left access path (item ∷ front) rest h =
    let here : stays access path item ≡ false = ground arith in
    rw here (remove_items-left access path front rest (ground arith))

-- Nothing is left to remove, or an entry that cannot be removed comes first.
abbrev pub StopsAt : FolderAccess → Bytes → List Entry → Type 0
StopsAt access path [] = Unit {0}
StopsAt access path (item ∷ rest) = stays access path item ≡ true

abbrev pub is_nil : List Entry → Bool
is_nil [] = true
is_nil (item ∷ items) = false

-- A folder that is there and can be read is left with no error and no entry if each can be removed;
-- if one cannot, an error is returned, and it is left with that one and those after it.
pub empty_local_filesystem_storage-left :
    (access : FolderAccess) (path : Bytes) (front rest : List Entry)
    → access.is_missing ≡ false
    → access.read_fails ≡ false
    → any (stays access path) front ≡ false
    → StopsAt access path rest
    → empty_local_filesystem_storage access path (front ++ rest)
      ≡ record { fails = not (is_nil rest); left = rest }
unfolding empty_local_filesystem_storage remove_items
empty_local_filesystem_storage-left access path front [] there reads removable stops =
    simp (there, reads) (remove_items-left access path front [] removable)
empty_local_filesystem_storage-left access path front (item ∷ rest) there reads removable stops =
    let last : remove_items access path (item ∷ rest)
        ≡ record { fails = true; left = item ∷ rest } =
      rw (stops, remove_items) refl in
    simp (there, reads) (remove_items-left access path front (item ∷ rest) removable ∙ last)
