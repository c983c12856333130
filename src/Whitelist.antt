-- ===== src/Whitelist.antt =====
-- src/delegation_backend/whitelist.go and sheets.go, and the refresh loop of
-- src/cmd/delegation_backend/main_bpu.go: the registered keys and where they come from.
pub mod Rows
pub mod Refresh
mod Tests
use uptime_service_backend.Base.{ℕ, ◌≡◌, Bool, true, false, Option, none, some, List, [], ◌∷◌, ◌++◌}
use uptime_service_backend.Base.Int.{ℤ, pos}
use uptime_service_backend.Base.Text.{Bytes}
use uptime_service_backend.Base.Dict.{Dict, lookup, insert}
use uptime_service_backend.Base.Result.{Result, ok, err}
use uptime_service_backend.Externals.{Externals}
use uptime_service_backend.Keys.{Pk, KeyError, nil_pk, string_to_pk}
use uptime_service_backend.Backoff.{
  Error, Operation, RetryError, Attempted, initial_backoff, exponential_backoff,
}

-- `map[Pk]unit`, a set: a key is in it if it has a value.
abbrev pub Whitelist : Type 0
Whitelist = Dict Bool

-- The pointer behind the lock of a `WhitelistMVar`; nil until the first `Replace`. A call of
-- either method is one step, which the lock makes of it.
abbrev pub WhitelistMVar : Type 0
WhitelistMVar = Option Whitelist

unfoldable pub replace : WhitelistMVar → Whitelist → WhitelistMVar
replace mvar wl = some wl

unfoldable pub read_whitelist : WhitelistMVar → Option Whitelist
read_whitelist mvar = mvar

-- A cell of the spreadsheet: a string, or a value of another type.
pub data Cell : Type 0 where
  text : Bytes → Cell
  other : Cell

-- A decoded key is added; a text that is no key is skipped.
pub add_decoded : Whitelist → Pk × Option KeyError → Whitelist
add_decoded wl (pk, none) = insert pk true wl
add_decoded wl (pk, some _) = wl

module _ (ext : Externals) where
  pub process_row : Whitelist → List Cell → Whitelist
  process_row wl [] = wl
  process_row wl (other ∷ row) = wl
  process_row wl (text v ∷ row) = add_decoded wl (string_to_pk ext nil_pk v)

  pub process_rows_from : Whitelist → List (List Cell) → Whitelist
  process_rows_from wl [] = wl
  process_rows_from wl (row ∷ rows) = process_rows_from (process_row wl row) rows

  pub process_rows : List (List Cell) → Whitelist
  process_rows rows = process_rows_from [] rows

  -- The spreadsheet service, in a world that it may change: the rows of the column, or an error.
  module _ {S : Type 0} (service : S → Result Error (List (List Cell)) × S) where
    -- The closure that is retried; it leaves its response in a variable, nil on an error.
    pub fetch : Operation (S × Option (List (List Cell)))
    fetch (s, resp) =
        let (r, s') = service s in
        elim r [ ok rows ↦ (none, (s', some rows)) | err e ↦ (some e, (s', none)) ]

    -- What the call returns; `none` would be the use of a nil response.
    pub retrieved :
        Attempted (S × Option (List (List Cell))) → Option (Result RetryError Whitelist) × S
    retrieved a =
        let found : Option (Result RetryError Whitelist) = elim a.world.1 [
          | none ↦ none
          | some rows ↦ some (ok (process_rows rows))
        ] in
        (elim a.error [ some e ↦ some (err e) | none ↦ found ], a.world.0)

    pub retrieve_whitelist : ℤ → S → Option (Result RetryError Whitelist) × S
    retrieve_whitelist retries s =
        retrieved (exponential_backoff fetch retries initial_backoff (s, none))

    -- One round of the loop that runs beside the server.
    pub refresh : WhitelistMVar → S → WhitelistMVar × S
    refresh mvar s =
        let (r, s') = retrieve_whitelist (pos 10) s in
        (elim r [ none ↦ mvar | some (err _) ↦ mvar | some (ok wl) ↦ replace mvar wl ], s')
