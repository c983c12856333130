-- ===== src/Request.antt =====
-- src/delegation_backend/data.go: the submission request, how it is read, the bytes that its
-- signature covers, and the metadata that is stored.
pub mod Decode
pub mod Payload
pub mod Forge
pub mod Meta
mod Tests
use uptime_service_backend.Base.{
  ℕ, zero, suc, ◌+◌, Bool, true, false, ◌&&◌, not, Option, none, some, [], ◌∷◌, ◌++◌, if◌then◌else◌,
}
use uptime_service_backend.Base.Int.{ℤ, is_zero}
use uptime_service_backend.Base.Text.{Bytes, lit, equal, is_empty}
use uptime_service_backend.Base.Decimal.{itoa}
use uptime_service_backend.Base.Panics.{◌>>=◌}
use uptime_service_backend.Clock.Civil.{Time, format, format_utc}
use uptime_service_backend.Externals.{Externals}
use uptime_service_backend.Keys.{Pk, Sig, nil_pk, nil_sig, marshal_pk}

-- What the text decodes to, and the text itself.
pub record Base64 : Type 0 where
  pub decoded : Bytes
  pub json : Bytes

pub record SubmitRequestData : Type 0 where
  pub peer_id : Bytes
  pub block : Option Base64
  pub snark_work : Option Base64
  pub created_at : Time
  pub graphql_control_port : ℤ
  pub built_with_commit_sha : Bytes

pub record SubmitRequest : Type 0 where
  pub submitter : Pk
  pub sig : Sig
  pub content : SubmitRequestData

-- bytes.Buffer with the first error; a write to a bytes.Buffer returns no error.
pub record BufferOrError : Type 0 where
  pub buf : Bytes
  pub error : Option Bytes

pub buffer_write : Bytes → Bytes → Bytes × Option Bytes
buffer_write buf b = (buf ++ b, none)

-- `WriteString` and `Write`.
pub write : BufferOrError → Bytes → BufferOrError
unfolding buffer_write
write boe b = elim boe.error [
  | none ↦ let (buf', error') = buffer_write boe.buf b in record { buf = buf'; error = error' }
  | some _ ↦ boe
]

infixl 6 ◌<<◌
abbrev pub ◌<<◌ : BufferOrError → Bytes → BufferOrError
boe << b = write boe b

-- `json.Marshal` of an RFC 3339 text, which has nothing to escape.
abbrev pub quoted : Bytes → Bytes
quoted s = b'"' ∷ s ++ b'"' ∷ []

-- The three optional parts of the payload.
pub write_snark_work : SubmitRequestData → BufferOrError → BufferOrError
write_snark_work req boe = elim req.snark_work [
  | none ↦ boe
  | some w ↦ boe << lit ",\"snark_work\":" << w.json
]

pub write_port : SubmitRequestData → BufferOrError → BufferOrError
write_port req boe =
    if is_zero req.graphql_control_port
    then boe
    else boe << lit ",\"graphql_control_port\":" << itoa req.graphql_control_port

pub write_commit_sha : SubmitRequestData → BufferOrError → BufferOrError
write_commit_sha req boe =
    if is_empty req.built_with_commit_sha
    then boe
    else boe << lit ",\"built_with_commit_sha\":\"" << req.built_with_commit_sha << lit "\""

-- `none` stands for a nil `req.Block`, which the code would dereference.
pub make_sign_payload : SubmitRequestData → Option BufferOrError
make_sign_payload req = do
  block ← req.block
  let head =
      record { buf = []; error = none }
      << lit "{\"block\":"
      << block.json
      << lit ",\"created_at\":"
      << quoted (format_utc req.created_at.instant)
      << lit ",\"peer_id\":\""
      << req.peer_id
      << lit "\""
  some (write_commit_sha req (write_port req (write_snark_work req head)) << lit "}")

pub record MetaToBeSaved : Type 0 where
  pub created_at : Bytes
  pub peer_id : Bytes
  pub snark_work : Option Base64
  pub remote_addr : Bytes
  pub submitter : Pk
  pub block_hash : Bytes
  pub graphql_control_port : ℤ
  pub built_with_commit_sha : Bytes

abbrev pub block_hash_version : ℕ
block_hash_version = 0x10

module _ (ext : Externals) where
  unfoldable pub get_block_data_hash : Base64 → Bytes
  get_block_data_hash block = ext.check_encode (ext.sum256 block.decoded) block_hash_version

  -- `json.Marshal` of the metadata: the fields in order, those marked `omitempty` left out at
  -- their zero value; `none` if the text of the snark work is not JSON.
  pub marshal_meta : MetaToBeSaved → Option Bytes
  marshal_meta m = do
    snark ← elim m.snark_work [
      | none ↦ some []
      | some w ↦ (do j ← ext.compact w.json; some (lit ",\"snark_work\":" ++ j))
    ]
    let port : Bytes =
        if is_zero m.graphql_control_port
        then []
        else lit ",\"graphql_control_port\":" ++ itoa m.graphql_control_port
    let sha : Bytes =
        if is_empty m.built_with_commit_sha
        then []
        else lit ",\"built_with_commit_sha\":" ++ ext.quote m.built_with_commit_sha
    some (
        lit "{\"created_at\":"
        ++ ext.quote m.created_at
        ++ lit ",\"peer_id\":"
        ++ ext.quote m.peer_id
        ++ snark
        ++ lit ",\"remote_addr\":"
        ++ ext.quote m.remote_addr
        ++ lit ",\"submitter\":"
        ++ marshal_pk ext m.submitter
        ++ lit ",\"block_hash\":"
        ++ ext.quote m.block_hash
        ++ port
        ++ sha
        ++ lit "}")

  pub make_meta : SubmitRequest → Base64 → Bytes → MetaToBeSaved
  make_meta req block remote_addr = record {
    created_at = format req.content.created_at;
    peer_id = req.content.peer_id;
    snark_work = req.content.snark_work;
    remote_addr = remote_addr;
    submitter = req.submitter;
    block_hash = get_block_data_hash block;
    graphql_control_port = req.content.graphql_control_port;
    built_with_commit_sha = req.content.built_with_commit_sha;
  }

  pub make_meta_to_be_saved : SubmitRequest → Base64 → Bytes → Option Bytes
  make_meta_to_be_saved req block remote_addr = marshal_meta (make_meta req block remote_addr)

-- `t == nilTime` compares the location too.
unfoldable pub is_nil_time : Time → Bool
is_nil_time t = elim t.zone [ none ↦ is_zero t.instant | some _ ↦ false ]

unfoldable pub check_required_fields : SubmitRequest → Bool
check_required_fields req =
    has_block
    && not (is_empty req.content.peer_id)
    && not (is_nil_time req.content.created_at)
    && not (equal req.submitter nil_pk)
    && not (equal req.sig nil_sig)
  where
    has_block : Bool
    has_block = elim req.content.block [ none ↦ false | some _ ↦ true ]
