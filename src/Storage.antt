-- ===== src/Storage.antt =====
-- src/delegation_backend/submission.go: how the database backends read back what is to be stored.
pub mod Order
pub mod Names
pub mod Roundtrip
pub mod Total
pub mod Backends
pub mod Shard
mod Tests
use uptime_service_backend.Base.{
  ℕ, zero, suc, ◌+◌, ◌-◌, Bool, true, false, Option, none, some, List, [], ◌∷◌, ◌++◌, ltb, ◌==◌,
  if◌then◌else◌, length, take, drop, get_or, get_elem?,
}
use uptime_service_backend.Base.Int.{ℤ, pos}
use uptime_service_backend.Base.Text.{Bytes, lit, equal, has_prefix, trim_suffix, is_empty}
use uptime_service_backend.Clock.{Instant}
use uptime_service_backend.Paths.{ObjectsToSave}

-- The raw block and the snark work are slices, `none` where they are nil.
pub record Submission : Type 0 where
  pub block_hash : Bytes
  pub submitted_at_date : Bytes
  pub submitted_at : Instant
  pub created_at : Instant
  pub remote_addr : Bytes
  pub peer_id : Bytes
  pub submitter : Bytes
  pub raw_block : Option Bytes
  pub snark_work : Option Bytes
  pub graphql_control_port : ℤ
  pub built_with_commit_sha : Bytes

abbrev pub empty_submission : Submission
empty_submission = record {
  block_hash = [];
  submitted_at_date = [];
  submitted_at = pos 0;
  created_at = pos 0;
  remote_addr = [];
  peer_id = [];
  submitter = [];
  raw_block = none;
  snark_work = none;
  graphql_control_port = pos 0;
  built_with_commit_sha = [];
}

pub record Block : Type 0 where
  pub block_hash : Bytes
  pub raw_block : Bytes

-- What the code calls of Go's libraries: encoding/json into a Submission, and package time with the
-- layout "2006-01-02T15:04:05Z".
pub record Readers : Type 0 where
  pub unmarshal_submission : Bytes → Option Submission
  pub parse_time : Bytes → Option Instant

-- `strings.Split(s, sep)` at one byte; `part` is what has been read of the first part.
unfoldable pub split_from : ℕ → Bytes → Bytes → List Bytes
split_from sep part [] = part ∷ []
split_from sep part (c ∷ s) = elim (c == sep) [
  | true ↦ part ∷ split_from sep [] s
  | false ↦ split_from sep (part ++ c ∷ []) s
]

unfoldable pub split : ℕ → Bytes → List Bytes
unfolding split_from
split sep s = split_from sep [] s

-- `strings.LastIndex(s, sep)` at one byte, `none` for -1.
unfoldable pub last_index : ℕ → Bytes → Option ℕ
last_index sep [] = none
last_index sep (c ∷ s) = elim (last_index sep s) [
  | some i ↦ some (suc i)
  | none ↦ if c == sep then some 0 else none
]

-- How reading a path may fail; `panics` is the slice up to index -1.
pub data PathError : Type 0 where
  invalid_path bad_time bad_json panics : PathError

pub data Parsed : Type 0 where
  parsed : Submission → Parsed
  failed : PathError → Parsed

abbrev pub and_then {ℓ} : {A : Type ℓ} → Option A → PathError → (A → Parsed) → Parsed
and_then none e f = failed e
and_then (some a) e f = f a

-- `filepath.Base` of a path with no trailing slash.
pub base : Bytes → Bytes
base path = let parts = split b'/' path in get_or parts (length parts - 1) []

-- `filepath.Ext`: from the last dot on.
pub ext_of : Bytes → Bytes
ext_of name = elim (last_index b'.' name) [ none ↦ [] | some i ↦ drop i name ]

pub parse_block_bytes : Bytes → Bytes → Block
parse_block_bytes content path =
    let name = base path in
    record { block_hash = trim_suffix name (ext_of name); raw_block = content }

-- All fields but the raw block are taken over.
pub merge_submission : Submission → Submission → Submission
merge_submission acc s = record s { raw_block = acc.raw_block }

pub merge_block : Submission → Block → Submission
merge_block acc b = record acc { raw_block = some b.raw_block; block_hash = b.block_hash }

pub data Prepared : Type 0 where
  prepared : Submission → Prepared
  no_valid_submission : Prepared

module _ (readers : Readers) where
  -- The part of the file name before the last hyphen is the time; the second part of the path, the date.
  pub parse_submission_bytes : Bytes → Bytes → Parsed
  parse_submission_bytes content path =
      let parts = split b'/' path in
      let name = trim_suffix (get_or parts 2 []) (lit ".json") in
      let from_parts : Parsed = and_then (last_index b'-' name) panics λ hyphen.
        and_then (readers.parse_time (take hyphen name)) bad_time λ at.
          and_then (readers.unmarshal_submission content) bad_json
            λ s. parsed (record s { submitted_at_date = get_or parts 1 []; submitted_at = at }) in
      if ltb (length parts) 3 then failed invalid_path else from_parts

  -- One round of the loop over the map; `none` is the panic.
  pub absorb : Submission → Bytes × Bytes → Option Submission
  absorb acc (path, content) =
      if has_prefix path (lit "submissions/")
      then elim (parse_submission_bytes content path) [
        | parsed s ↦ some (merge_submission acc s)
        | failed panics ↦ none
        | failed other ↦ some acc
      ]
      else if has_prefix path (lit "blocks/")
      then some (merge_block acc (parse_block_bytes content path))
      else some acc

  pub absorb_all : Submission → ObjectsToSave → Option Submission
  absorb_all acc [] = some acc
  absorb_all acc (o ∷ objs) = elim (absorb acc o) [ none ↦ none | some acc' ↦ absorb_all acc' objs ]

  -- The map is a list here, in the order in which the loop meets its entries.
  pub object_to_save_to_submission : ObjectsToSave → Option Prepared
  object_to_save_to_submission objs = elim (absorb_all empty_submission objs) [
    | none ↦ none
    | some s ↦ some (if is_empty s.submitter then no_valid_submission else prepared s)
  ]
