-- ===== src/Keys/Tests.antt =====
-- Runs of the codecs.
use uptime_service_backend.Base.{◌≡◌, ◌⊎◌, refl, none, some, ◌++◌, length}
use uptime_service_backend.Base.Text.{Bytes, lit}
use uptime_service_backend.Samples.{libraries, libraries-IsBase58, libraries-IsJson, key, key-IsPk}
use uptime_service_backend.Keys.{
  nil_pk, pk_version, pk_prefix, pk_length, decode_check, unmarshal_pk, marshal_pk,
}
use uptime_service_backend.Keys.Codec.{Rejected, decode_check_cases, unmarshal_pk-marshal_pk}

unmarshal_pk-marshal_pk_example :
    unmarshal_pk libraries nil_pk (marshal_pk libraries key) ≡ some key
unmarshal_pk-marshal_pk_example =
    unmarshal_pk-marshal_pk libraries libraries-IsBase58 libraries-IsJson key nil_pk key-IsPk refl

decode_check_cases_example :
    ((k : Bytes) × (length k ≡ pk_length)
      × (libraries.check_decode (lit "MLBA") ≡ some (pk_prefix ++ k, pk_version))
      × (decode_check libraries pk_version pk_prefix pk_length nil_pk (lit "MLBA") ≡ (k, none)))
    ⊎ Rejected libraries pk_version pk_prefix pk_length nil_pk (lit "MLBA")
decode_check_cases_example =
    decode_check_cases libraries pk_version pk_prefix pk_length nil_pk (lit "MLBA") refl
