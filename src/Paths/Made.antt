-- ===== src/Paths/Made.antt =====
-- src/delegation_backend/submit.go: the paths that makePaths makes, which it does of every time.
use mathlib.Core.Option.{some-injective}
use uptime_service_backend.Base.{◌≡◌, sym, ◌∙◌, false, some, ◌++◌, ltb, length, take, arith}
use uptime_service_backend.Base.Text.{Bytes, lit}
use uptime_service_backend.Clock.{Instant}
use uptime_service_backend.Clock.Civil.{format_utc}
use uptime_service_backend.Clock.Layout.{format_utc-length}
use uptime_service_backend.Externals.{Externals}
use uptime_service_backend.Keys.{Pk, pk_string}
use uptime_service_backend.Paths.{FilePaths, make_paths}

abbrev pub paths_of : Externals → Instant → Bytes → Pk → FilePaths
paths_of ext t hash pk = record {
  meta =
      lit "submissions/"
      ++ take 10 (format_utc t)
      ++ lit "/"
      ++ format_utc t
      ++ lit "-"
      ++ pk_string ext pk
      ++ lit ".json";
  block = lit "blocks/" ++ hash ++ lit ".dat";
}

make_paths-made :
    (ext : Externals) (t : Instant) (hash : Bytes) (pk : Pk)
    → make_paths ext t hash pk ≡ some (paths_of ext t hash pk)
unfolding make_paths
make_paths-made ext t hash pk =
    let long : ltb (length (format_utc t)) 10 ≡ false = ground (arith, format_utc-length t) in
    simp long

pub make_paths-paths_of :
    (ext : Externals) (t : Instant) (hash : Bytes) (pk : Pk) (paths : FilePaths)
    → make_paths ext t hash pk ≡ some paths
    → paths ≡ paths_of ext t hash pk
make_paths-paths_of ext t hash pk paths made =
    some-injective _ _ (sym made ∙ make_paths-made ext t hash pk)
