-- ===== src/Storage/Backends/Objects.antt =====
-- Saving to a bucket or a directory. A store is a map from full keys to contents; what the services
-- may refuse at a key is a parameter.
pub mod Stored
use uptime_service_backend.Base.{
  ◌≡◌, Bool, true, false, not, ◌||◌, ◌&&◌, none, some, [], ◌∷◌, ◌++◌, arith, if◌then◌else◌,
}
use uptime_service_backend.Base.Text.{Bytes, lit, has_prefix, equal_iff}
use uptime_service_backend.Base.Dict.{Dict, lookup, insert, lookup-insert}
use uptime_service_backend.Paths.{ObjectsToSave}

abbrev pub is_present : Bytes → Dict Bytes → Bool
is_present key store = elim (lookup key store) [ none ↦ false | some _ ↦ true ]

-- The keys at which HeadObject and PutObject fail for a reason of their own.
pub record Bucket : Type 0 where
  pub head_fails : Bytes → Bool
  pub put_fails : Bytes → Bool

pub put_object : Bucket → Bytes → Bytes → Dict Bytes → Dict Bytes
put_object b key bs store = if b.put_fails key then store else insert key bs store

-- One round of the loop: a block that HeadObject finds is skipped; any error of HeadObject, not
-- only "NotFound", leads on to the put.
pub s3_save_one : Bucket → Bytes → Bytes × Bytes → Dict Bytes → Dict Bytes
s3_save_one b prefix (path, bs) store =
    let key = prefix ++ lit "/" ++ path in
    if has_prefix path (lit "blocks/") && (not (b.head_fails key) && is_present key store)
    then store
    else put_object b key bs store

pub s3_save : Bucket → Bytes → ObjectsToSave → Dict Bytes → Dict Bytes
s3_save b prefix [] store = store
s3_save b prefix (o ∷ objs) store = s3_save b prefix objs (s3_save_one b prefix o store)

-- The paths at which `os.Stat` fails with another error than that there is no file, the
-- directories cannot be made, or the file cannot be written; and `filepath.Join`.
pub record Directory : Type 0 where
  pub stat_fails : Bytes → Bool
  pub mkdir_fails : Bytes → Bool
  pub write_fails : Bytes → Bool
  pub join : Bytes → Bytes

-- A file that is there is left alone, and so is one that `Stat` cannot tell about.
pub local_save_one : Directory → Bytes × Bytes → Dict Bytes → Dict Bytes
local_save_one d (path, bs) files =
    let full_path = d.join path in
    if d.stat_fails full_path || is_present full_path files
    then files
    else if d.mkdir_fails full_path
    then files
    else if d.write_fails full_path
    then files
    else insert full_path bs files

pub local_file_system_save : Directory → ObjectsToSave → Dict Bytes → Dict Bytes
local_file_system_save d [] files = files
local_file_system_save d (o ∷ objs) files = local_file_system_save d objs (local_save_one d o files)

local_save_one-kept :
    (d : Directory) (o : Bytes × Bytes) (files : Dict Bytes) (path v : Bytes)
    → lookup path files ≡ some v
    → lookup path (local_save_one d o files) ≡ some v
unfolding local_save_one
local_save_one-kept d (p, bs) files path v h =
    ground (arith, h, lookup-insert (d.join p) path bs files, equal_iff (d.join p) path)

-- Saving to a directory changes no file that is already there.
pub local_file_system_save-kept :
    (d : Directory) (objs : ObjectsToSave) (files : Dict Bytes) (path v : Bytes)
    → lookup path files ≡ some v
    → lookup path (local_file_system_save d objs files) ≡ some v
unfolding local_file_system_save
local_file_system_save-kept d [] files path v h = h
local_file_system_save-kept d (o ∷ objs) files path v h =
    local_file_system_save-kept d objs (local_save_one d o files) path v
      (local_save_one-kept d o files path v h)
