-- ===== src/Paths.antt =====
-- src/delegation_backend/submit.go: the paths under which a submission is stored.
pub mod Made
use uptime_service_backend.Base.{Option, none, some, ◌++◌, ltb, if◌then◌else◌, length, take}
use uptime_service_backend.Base.Text.{Bytes, lit}
use uptime_service_backend.Base.Dict.{Dict}
use uptime_service_backend.Clock.{Instant}
use uptime_service_backend.Clock.Civil.{format_utc}
use uptime_service_backend.Externals.{Externals}
use uptime_service_backend.Keys.{Pk, pk_string}

-- `map[string][]byte`: what is stored, by path.
abbrev pub ObjectsToSave : Type 0
ObjectsToSave = Dict Bytes

pub record FilePaths : Type 0 where
  pub meta : Bytes
  pub block : Bytes

module _ (ext : Externals) where
  -- The slice `submittedAt[:10]` panics, `none`, if the text is shorter.
  unfoldable pub make_paths_impl : Bytes → Bytes → Pk → Option FilePaths
  make_paths_impl submitted_at block_hash submitter =
      if ltb (length submitted_at) 10
      then none
      else some (record {
        meta =
            lit "submissions/"
            ++ take 10 submitted_at
            ++ lit "/"
            ++ submitted_at
            ++ lit "-"
            ++ pk_string ext submitter
            ++ lit ".json";
        block = lit "blocks/" ++ block_hash ++ lit ".dat";
      })

  unfoldable pub make_paths : Instant → Bytes → Pk → Option FilePaths
  unfolding make_paths_impl
  make_paths submitted_at block_hash submitter =
      make_paths_impl (format_utc submitted_at) block_hash submitter
