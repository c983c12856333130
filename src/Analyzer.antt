-- ===== src/Analyzer.antt =====
-- src/itn_uptime_analyzer: what the program that measures uptime shares. It reads a bucket, whose
-- pages and objects may fail to arrive; `log.Fatalf` and run-time panics end it. Report is the
-- program, src/cmd/itn_uptime_analyzer/main_itn_uptime_analyzer.go.
pub mod Period
pub mod Identity
pub mod Uptime
pub mod Options
pub mod Report
mod Tests
use uptime_service_backend.Base.{
  ℕ, ◌≡◌, Bool, true, false, Option, none, some, List, [], ◌∷◌, ltb, get_elem?, length, take,
  if◌then◌else◌,
}
use uptime_service_backend.Base.Result.{Result, ok, err, ◌>>=◌, ◌>>◌, refuse_if, or_fail}
use uptime_service_backend.Base.Text.{Bytes}
use uptime_service_backend.Clock.{Instant}
use uptime_service_backend.Request.{MetaToBeSaved}
use uptime_service_backend.Storage.{split}

pub data Halt : Type 0 where
  fatal : Halt
  panics : Halt

-- An object of a listing; its contents are `none` where it cannot be fetched.
pub record Object : Type 0 where
  pub key : Bytes
  pub contents : Option Bytes

-- The pages of a listing, `none` for one that cannot be fetched.
abbrev pub Listing : Type 0
Listing = List (Option (List Object))

-- What the code calls of Go's libraries: MD5 in hexadecimal, encoding/json into a value whose
-- fields stay as they are where the text has no such member, time.Parse with RFC 3339, and
-- regexp.Compile with the MatchString of what it returns.
pub record Libraries : Type 0 where
  pub md5_hex : Bytes → Bytes
  pub unmarshal_meta : Bytes → MetaToBeSaved → Option MetaToBeSaved
  pub parse_time : Bytes → Option Instant
  pub compile_regexp : Bytes → Option (Bytes → Bool)

-- The time in the fourth part of a key, whose first twenty bytes are cut out.
pub get_submission_time : Libraries → Bytes → Result Halt Instant
get_submission_time lib key = do
  filename ← or_fail (get_elem? (split b'/' key) 3) panics
  refuse_if (ltb (length filename) 20) panics
  or_fail (lib.parse_time (take 20 filename)) fatal
