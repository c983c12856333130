-- ===== src/Whitelist/Tests.antt =====
-- Runs of the registration: a spreadsheet of three rows, and a service that fails at first.
use uptime_service_backend.Base.{
  ℕ, zero, suc, ◌<◌, ◌≡◌, ◌≢◌, ◌↔◌, refl, none, some, List, [], ◌∷◌, arith,
}
use uptime_service_backend.Base.Text.{lit}
use uptime_service_backend.Base.Dict.{lookup}
use uptime_service_backend.Base.Result.{Result, ok, err}
use uptime_service_backend.Backoff.{Error}
use uptime_service_backend.Keys.{pk_string}
use uptime_service_backend.Samples.{libraries, key}
use uptime_service_backend.Whitelist.{Cell, text, other, process_rows, refresh}
use uptime_service_backend.Whitelist.Rows.{SomeNames, process_rows-SomeNames}
use uptime_service_backend.Whitelist.Refresh.{RequestsFail, refresh-succeeds}

abbrev rows : List (List Cell)
rows =
    []
    ∷ (other ∷ [])
    ∷ (text (lit "Block producer") ∷ [])
    ∷ (text (pk_string libraries key) ∷ [])
    ∷ []

-- The service fails until its countdown is at zero.
abbrev service : ℕ → Result Error (List (List Cell)) × ℕ
service zero = (ok rows, zero)
service (suc n) = (err (lit "unavailable"), n)

process_rows-SomeNames_example :
    (lookup key (process_rows libraries rows) ≢ none) ↔ SomeNames libraries key rows
process_rows-SomeNames_example = process_rows-SomeNames libraries rows key

fails_once : RequestsFail libraries service 1 1
fails_once = ((lit "unavailable", refl), tt)

refresh-succeeds_example :
    refresh libraries service none 1 ≡ (some (process_rows libraries rows), 0)
refresh-succeeds_example =
    refresh-succeeds libraries service none 1 1 rows (omega arith) fails_once refl

fails : (n : ℕ) (m : ℕ) → n < suc m → RequestsFail libraries service n m
fails zero m p = tt
fails (suc n) zero p = absurd (omega arith)
fails (suc n) (suc m) p = ((lit "unavailable", refl), fails n m (omega arith))
