-- ===== src/Samples.antt =====
-- Concrete libraries, a key and a request, for the tests.
use uptime_service_backend.Base.{
  ℕ, zero, suc, ◌+◌, ◌-◌, ◌*◌, ◌/◌, ◌%◌, ◌<◌, ◌≡◌, ◌==◌, All, false, refl, Option, none, some, [],
  ◌∷◌, ◌++◌, arith, length, take, replicate, take-append, length-append, All-append,
}
use uptime_service_backend.Base.Int.{pos}
use uptime_service_backend.Base.Text.{Bytes, lit, equal}
use uptime_service_backend.Externals.{Externals, RawRequest, AreBytes, AreAscii, IsBase58, IsJson}
use uptime_service_backend.Keys.{
  pk_string, Pk, Sig, IsPk, IsSig, pk_prefix, pk_version, sig_prefix, sig_version,
}
use uptime_service_backend.Request.{Base64, SubmitRequestData, SubmitRequest}
use uptime_service_backend.Request.Payload.{payload}

-- Two letters for each byte.
abbrev hex : Bytes → Bytes
hex [] = []
hex (b ∷ bs) = (65 + b / 16 % 16) ∷ (65 + b % 16) ∷ hex bs

abbrev unhex : Bytes → Bytes
unhex [] = []
unhex (x ∷ []) = []
unhex (x ∷ y ∷ s) = ((x - 65) * 16 + (y - 65)) ∷ unhex s

abbrev versioned : Bytes → Option (Bytes × ℕ)
versioned [] = none
versioned (v ∷ bs) = some (bs, v)

abbrev quote : Bytes → Bytes
quote s = b'"' ∷ s ++ b'"' ∷ []

abbrev unquote : Bytes → Option Bytes
unquote [] = none
unquote (q ∷ s) = some (take (length s - 1) s)

abbrev hash : Bytes → Bytes
hash bs = 1 ∷ replicate 31 (length bs % 256)

-- A key, and the hash of a message as its signature, with 32 zeros.
abbrev pub key : Pk
key = replicate 33 7

abbrev pub content : SubmitRequestData
content = record {
  peer_id = lit "12D3";
  block = some (record { decoded = lit "abcd"; json = quote (lit "abcd") });
  snark_work = none;
  created_at = record { instant = pos 63_000_000_000_000_000_000; zone = none };
  graphql_control_port = pos 0;
  built_with_commit_sha = lit "f00";
}

abbrev pub block : Base64
block = record { decoded = lit "abcd"; json = quote (lit "abcd") }

abbrev pub sig : Sig
sig = hash (payload block content) ++ replicate 32 0

abbrev pub request : SubmitRequest
request = record { submitter = key; sig = sig; content = content }

-- Every body that is not empty reads as the request.
abbrev fields : Bytes → Option RawRequest
fields [] = none
fields (b ∷ body) = some (record {
  submitter = some (quote (hex (pk_version ∷ pk_prefix ++ key)));
  signature = some (quote (hex (sig_version ∷ sig_prefix ++ sig)));
  block = some (quote (lit "abcd"));
  snark_work = none;
  peer_id = lit "12D3";
  created_at = record { instant = pos 63_000_000_000_000_000_000; zone = none };
  graphql_control_port = pos 0;
  built_with_commit_sha = lit "f00";
})

abbrev pub libraries : Externals
libraries = record {
  check_encode = λ bs v. hex (v ∷ bs);
  check_decode = λ s. versioned (unhex s);
  sum256 = hash;
  verify_message_string = λ s pk m n net. equal m (take n s);
  request_fields = fields;
  json_string = unquote;
  quote = quote;
  compact = some;
  base64_decode = some;
}

unhex-hex : (bs : Bytes) → AreBytes bs → unhex (hex bs) ≡ bs
unhex-hex [] v = refl
unhex-hex (b ∷ bs) v =
    let same : (65 + b / 16 % 16 - 65) * 16 + (65 + b % 16 - 65) ≡ b = omega (arith, v.0) in
    rw (same, unhex-hex bs v.1)

hex-AreAscii : (bs : Bytes) → AreAscii (hex bs)
hex-AreAscii [] = tt
hex-AreAscii (b ∷ bs) = (omega arith, (omega arith, hex-AreAscii bs))

pub libraries-IsBase58 : IsBase58 libraries
libraries-IsBase58 = record {
  inverts = λ bs v p q.
      let same : (65 + v / 16 % 16 - 65) * 16 + (65 + v % 16 - 65) ≡ v = omega (arith, q) in
      rw (same, unhex-hex bs p);
  ascii = λ bs v. hex-AreAscii (v ∷ bs);
}

pub libraries-IsJson : IsJson libraries
libraries-IsJson s p =
    let size : length (s ++ b'"' ∷ []) - 1 ≡ length s =
      omega (arith, length-append s (b'"' ∷ [])) in
    rw (size, take-append s (b'"' ∷ []))

replicate-AreBytes : (n b : ℕ) → b < 256 → AreBytes (replicate n b)
replicate-AreBytes zero b p = tt
replicate-AreBytes (suc n) b p = (p, replicate-AreBytes n b p)

pub key-IsPk : IsPk key
key-IsPk = record { size = refl; bytes = replicate-AreBytes 33 7 (omega arith) }

hash-AreBytes : (bs : Bytes) → AreBytes (hash bs)
hash-AreBytes bs = (omega arith, replicate-AreBytes 31 (length bs % 256) (omega arith))

pub sig-IsSig : IsSig sig
sig-IsSig = record {
  size = refl;
  bytes =
      All-append (λ b. b < 256) (hash (payload block content)) (replicate 32 0)
        (hash-AreBytes (payload block content)) (replicate-AreBytes 32 0 (omega arith));
}

-- The base58 text of these libraries is made of letters.
hex-letters : (c : ℕ) (bs : Bytes) → c < 65 → All (λ x. (x == c) ≡ false) (hex bs)
hex-letters c [] low = tt
hex-letters c (b ∷ bs) low = (ground (arith, low), (ground (arith, low), hex-letters c bs low))

pub pk_string-letters :
    (c : ℕ) (pk : Pk) → c < 65 → All (λ x. (x == c) ≡ false) (pk_string libraries pk)
unfolding pk_string
pk_string-letters c pk low = hex-letters c (pk_version ∷ pk_prefix ++ pk) low
