-- ===== src/Request/Decode.antt =====
-- `json.Unmarshal` into a request: the methods of data.go on the fields' raw text.
use uptime_service_backend.Base.{Option, none, some}
use uptime_service_backend.Base.Text.{Bytes}
use uptime_service_backend.Base.Panics.{◌>>=◌}
use uptime_service_backend.Externals.{Externals}
use uptime_service_backend.Keys.{nil_pk, nil_sig, unmarshal_pk, unmarshal_sig}
use uptime_service_backend.Request.{Base64, SubmitRequest}

-- A field that is missing keeps its value; one that is present is read by its method.
abbrev pub field {ℓ} : {A : Type ℓ} → A → (Bytes → Option A) → Option Bytes → Option A
field old read none = some old
field old read (some b) = read b

module _ (ext : Externals) where
  unfoldable pub unmarshal_base64 : Bytes → Option Base64
  unmarshal_base64 b = do
    s ← ext.json_string b
    bs ← ext.base64_decode s
    some (record { decoded = bs; json = b })

  unfoldable pub unmarshal_pointer : Bytes → Option (Option Base64)
  unmarshal_pointer b = do d ← unmarshal_base64 b; some (some d)

  unfoldable pub unmarshal_request : Bytes → Option SubmitRequest
  unmarshal_request body = do
    raw ← ext.request_fields body
    submitter ← field nil_pk (unmarshal_pk ext nil_pk) raw.submitter
    sig ← field nil_sig (unmarshal_sig ext nil_sig) raw.signature
    block ← field none unmarshal_pointer raw.block
    snark_work ← field none unmarshal_pointer raw.snark_work
    some (record {
      submitter = submitter;
      sig = sig;
      content = record {
        peer_id = raw.peer_id;
        block = block;
        snark_work = snark_work;
        created_at = raw.created_at;
        graphql_control_port = raw.graphql_control_port;
        built_with_commit_sha = raw.built_with_commit_sha;
      };
    })
