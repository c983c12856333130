-- ===== src/Analyzer/Report/Listed.antt =====
-- From the backend to the analyzer: src/delegation_backend/submit.go makes the path of a submission
-- and aws_s3.go the key under which it is saved; src/itn_uptime_analyzer/uptime.go and identity.go
-- list the keys of a day, and time.go reads a key's time.
use uptime_service_backend.Base.{
  ℕ, ◌≡◌, ◌↔◌, ◌<◌, refl, ◌∙◌, true, false, some, [], ◌∷◌, ◌++◌, ltb, length, take, length-append,
  take-append, arith, get_elem?, length-take_le,
}
use mathlib.Core.List.{append_assoc}
use uptime_service_backend.Base.Result.{ok}
use uptime_service_backend.Base.Int.{pos}
use uptime_service_backend.Base.Text.{Bytes, lit, equal, equal_iff, has_prefix}
use uptime_service_backend.Clock.{Instant}
use uptime_service_backend.Clock.Civil.{civil, format_utc}
use uptime_service_backend.Clock.Layout.{format_utc-length, format_utc-length_year}
use uptime_service_backend.Externals.{Externals}
use uptime_service_backend.Keys.{Pk, pk_string}
use uptime_service_backend.Paths.{FilePaths, make_paths}
use uptime_service_backend.Paths.Made.{paths_of, make_paths-paths_of}
use uptime_service_backend.Storage.{split}
use uptime_service_backend.Storage.Names.{
  Without, split-four, take-Without, append-Without, format_utc-Without,
}
use uptime_service_backend.Analyzer.{Libraries, get_submission_time}
use uptime_service_backend.Analyzer.Options.{AppConfig}
use uptime_service_backend.Analyzer.Report.{PeriodTexts, submissions_prefix}

has_prefix-front : (p s q : Bytes) → has_prefix (p ++ s) (p ++ q) ≡ has_prefix s q
unfolding has_prefix
has_prefix-front [] s q = refl
has_prefix-front (x ∷ p) s q = ground (arith, has_prefix-front p s q)

has_prefix-length : (a s b : Bytes) → length a ≡ length b → has_prefix (a ++ s) b ≡ equal a b
unfolding has_prefix equal
has_prefix-length [] [] [] h = refl
has_prefix-length [] (x ∷ s) [] h = refl
has_prefix-length [] s (y ∷ b) h = absurd (omega arith)
has_prefix-length (x ∷ a) s [] h = absurd (omega arith)
has_prefix-length (x ∷ a) s (y ∷ b) h = ground (arith, has_prefix-length a s b (omega arith))

-- The key under which an object is saved in the bucket.
abbrev pub saved_key : AppConfig → Bytes → Bytes
saved_key config path = config.network_name ++ lit "/" ++ path

abbrev file_name : Externals → Instant → Pk → Bytes
file_name ext t pk = format_utc t ++ (lit "-" ++ (pk_string ext pk ++ lit ".json"))

submissions-Without : Without b'/' (lit "submissions")
submissions-Without =
    (refl, (refl, (refl, (refl, (refl, (refl, (refl, (refl, (refl, (refl, (refl, tt)))))))))))

file_name-Without :
    (ext : Externals) (t : Instant) (pk : Pk)
    → Without b'/' (pk_string ext pk)
    → Without b'/' (file_name ext t pk)
file_name-Without ext t pk h =
    append-Without b'/' (format_utc t) (lit "-" ++ (pk_string ext pk ++ lit ".json"))
      (format_utc-Without t)
      (
        refl,
        append-Without b'/' (pk_string ext pk) (lit ".json") h
            (refl, (refl, (refl, (refl, (refl, tt))))),
      )

-- The key by its prefix, and by its parts.
key-front :
    (ext : Externals) (config : AppConfig) (t : Instant) (pk : Pk)
    → saved_key config ((paths_of ext t [] pk).meta)
      ≡ (config.network_name ++ lit "/submissions/")
        ++ (take 10 (format_utc t) ++ (lit "/" ++ file_name ext t pk))
key-front ext config t pk = simp append_assoc refl

key-parts :
    (ext : Externals) (config : AppConfig) (t : Instant) (pk : Pk)
    → saved_key config ((paths_of ext t [] pk).meta)
      ≡ config.network_name
        ++ b'/'
          ∷ (lit "submissions" ++ b'/' ∷ (take 10 (format_utc t) ++ b'/' ∷ file_name ext t pk))
key-parts ext config t pk = simp append_assoc refl

module _ (ext : Externals) (lib : Libraries) (config : AppConfig) (texts : PeriodTexts)
    (t at : Instant) (y : ℕ) (hash : Bytes) (pk : Pk) (paths : FilePaths)
    (made : make_paths ext t hash pk ≡ some paths) (in_year : (civil t).year ≡ pos y)
    (four : y < 10000) where
  key-listed :
      length texts.day ≡ 10
      → has_prefix (saved_key config paths.meta) (submissions_prefix config texts)
        ≡ equal (take 10 (format_utc t)) texts.day
  unfolding submissions_prefix
  key-listed day =
      let ts = format_utc t in
      let cut : length (take 10 ts) ≡ length texts.day =
        omega (arith, length-take_le 10 ts (format_utc-length t)) in
      rw (make_paths-paths_of ext t hash pk paths made, key-front ext config t pk)
        (has_prefix-front (config.network_name ++ lit "/submissions/")
            (take 10 ts ++ (lit "/" ++ file_name ext t pk)) texts.day
          ∙ has_prefix-length (take 10 ts) (lit "/" ++ file_name ext t pk) texts.day cut)

  key-time :
      Without b'/' config.network_name
      → Without b'/' (pk_string ext pk)
      → lib.parse_time (format_utc t) ≡ some at
      → get_submission_time lib (saved_key config paths.meta) ≡ ok at
  unfolding get_submission_time
  key-time name key_text read =
      let ts = format_utc t in
      let file = file_name ext t pk in
      let no_slash = format_utc-Without t in
      let fourth : get_elem? (split b'/' (saved_key config paths.meta)) 3 ≡ some file =
        rw
          (
            make_paths-paths_of ext t hash pk paths made,
            key-parts ext config t pk,
            split-four b'/' config.network_name (lit "submissions") (take 10 ts) file name
                (submissions-Without) (take-Without b'/' 10 ts no_slash)
                (file_name-Without ext t pk key_text),
          )
          refl in
      let twenty = format_utc-length_year t y in_year four in
      let long : ltb (length file) 20 ≡ false =
        ground (arith, length-append ts (lit "-" ++ (pk_string ext pk ++ lit ".json"))) in
      let cut : take 20 file ≡ ts =
        rw (← twenty) (take-append ts (lit "-" ++ (pk_string ext pk ++ lit ".json"))) in
      rw fourth (rw (long, cut, read) refl)

  -- Where a submission is stored under the path that is made for a time of the years 0 to 9999, in
  -- a network whose name has no slash, as the text of the key has none, its key is below the
  -- prefix that the analyzer lists exactly if its UTC date is the day on which the period starts,
  -- and the time that the analyzer reads from the key is the one that it was made for, as RFC 3339
  -- reads it.
  pub make_paths-listed :
      length texts.day ≡ 10
      → Without b'/' config.network_name
      → Without b'/' (pk_string ext pk)
      → lib.parse_time (format_utc t) ≡ some at
      → ((has_prefix (saved_key config paths.meta) (submissions_prefix config texts) ≡ true)
          ↔ (take 10 (format_utc t) ≡ texts.day))
        × (get_submission_time lib (saved_key config paths.meta) ≡ ok at)
  make_paths-listed day name key_text read = (
    rw (key-listed day) (equal_iff (take 10 (format_utc t)) texts.day),
    key-time name key_text read,
  )
