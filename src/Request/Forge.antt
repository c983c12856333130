-- ===== src/Request/Forge.antt =====
-- The payload does not separate `peer_id` from what follows it, since it is written unescaped.
use mathlib.Core.List.{append_assoc}
use uptime_service_backend.Base.{◌≡◌, ◌≢◌, some, none, [], ◌++◌, false, ap}
use uptime_service_backend.Base.Int.{pos}
use uptime_service_backend.Base.Text.{lit, is_empty}
use uptime_service_backend.Request.{Base64, SubmitRequestData, make_sign_payload}
use uptime_service_backend.Request.Payload.{payload, make_sign_payload-payload}

-- The request with its commit hash moved into its peer id.
abbrev pub absorbed : SubmitRequestData → SubmitRequestData
absorbed req = record req {
  peer_id = req.peer_id ++ lit "\",\"built_with_commit_sha\":\"" ++ req.built_with_commit_sha;
  built_with_commit_sha = [];
}

-- A request with no snark work and no port, but with a commit hash, has the same payload as another
-- request, whose peer id has absorbed the hash: one signature is valid for both.
pub payload-absorbed :
    (req : SubmitRequestData) (block : Base64)
    → req.block ≡ some block
    → req.snark_work ≡ none
    → req.graphql_control_port ≡ pos 0
    → is_empty req.built_with_commit_sha ≡ false
    → (make_sign_payload (absorbed req) ≡ make_sign_payload req) × (absorbed req ≢ req)
payload-absorbed req block b s p sha =
    let same : payload block (absorbed req) ≡ payload block req = simp (s, p, sha, append_assoc) in
    (
      rw (
        make_sign_payload-payload (absorbed req) block b,
        make_sign_payload-payload req block b,
        same,
      ),
      λ e. let kept = ap (λ (r : SubmitRequestData). is_empty r.built_with_commit_sha) e in cc,
    )
