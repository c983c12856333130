-- ===== src/Request/Tests.antt =====
-- Runs of the payload on the sample request.
use uptime_service_backend.Base.{◌≡◌, ◌≢◌, refl, none, some}
use uptime_service_backend.Samples.{content, block}
use uptime_service_backend.Request.{make_sign_payload}
use uptime_service_backend.Request.Payload.{payload, make_sign_payload-payload}
use uptime_service_backend.Request.Forge.{absorbed, payload-absorbed}

make_sign_payload-payload_example :
    make_sign_payload content ≡ some (record { buf = payload block content; error = none })
make_sign_payload-payload_example = make_sign_payload-payload content block refl

payload-absorbed_example :
    (make_sign_payload (absorbed content) ≡ make_sign_payload content)
    × (absorbed content ≢ content)
payload-absorbed_example = payload-absorbed content block refl refl refl refl
