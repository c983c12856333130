-- ===== src/Externals.antt =====
-- What the backend calls and this repository does not implement, as one record of functions, and
-- what the code relies on. Go's encoding/json stands here by the four functions at which it meets
-- the repository's own `UnmarshalJSON` and `MarshalJSON` methods.
use uptime_service_backend.Base.{ℕ, ◌<◌, ◌≡◌, Bool, Option, some, All}
use uptime_service_backend.Base.Int.{ℤ}
use uptime_service_backend.Base.Text.{Bytes}
use uptime_service_backend.Clock.Civil.{Time}

-- The JSON object of a submission, before the methods of data.go have read their fields. A field of
-- raw text is `none` where it is missing, and for the two pointers also where it is `null`.
pub record RawRequest : Type 0 where
  pub submitter : Option Bytes
  pub signature : Option Bytes
  pub block : Option Bytes
  pub snark_work : Option Bytes
  pub peer_id : Bytes
  pub created_at : Time
  pub graphql_control_port : ℤ
  pub built_with_commit_sha : Bytes

pub record Externals : Type 0 where
  -- github.com/btcsuite/btcutil/base58
  pub check_encode : Bytes → ℕ → Bytes
  pub check_decode : Bytes → Option (Bytes × ℕ)
  -- golang.org/x/crypto/blake2b `Sum256`
  pub sum256 : Bytes → Bytes
  -- the C library libmina_signer: signature, key, message, its length, network
  pub verify_message_string : Bytes → Bytes → Bytes → ℕ → ℕ → Bool
  -- encoding/json: the fields of a request, a string from its raw text, a string as text, and the
  -- check and compaction of what a `MarshalJSON` method returns
  pub request_fields : Bytes → Option RawRequest
  pub json_string : Bytes → Option Bytes
  pub quote : Bytes → Bytes
  pub compact : Bytes → Option Bytes
  -- encoding/base64 `StdEncoding.DecodeString`
  pub base64_decode : Bytes → Option Bytes

abbrev pub AreBytes : Bytes → Type 0
AreBytes = All (λ b. b < 256)

abbrev pub AreAscii : Bytes → Type 0
AreAscii = All (λ b. b < 128)

-- Base58Check: ASCII text, which decodes to what it encodes.
pub record IsBase58 (ext : Externals) : Type 0 where
  pub inverts :
      (bs : Bytes) (version : ℕ)
      → AreBytes bs
      → version < 256
      → ext.check_decode (ext.check_encode bs version) ≡ some (bs, version)
  pub ascii : (bs : Bytes) (version : ℕ) → AreAscii (ext.check_encode bs version)

-- A JSON string is read as the ASCII text that it was written for.
abbrev pub IsJson : Externals → Type 0
IsJson ext = (s : Bytes) → AreAscii s → ext.json_string (ext.quote s) ≡ some s
