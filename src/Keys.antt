-- ===== src/Keys.antt =====
-- src/delegation_backend/data.go: public keys and signatures, and their base58check texts;
-- the constants are those of src/delegation_backend/constants.go.
pub mod Codec
mod Tests
use uptime_service_backend.Base.{
  ℕ, zero, suc, ◌+◌, ◌≡◌, Bool, true, false, not, Option, none, some, List, [], ◌∷◌, ◌++◌, ◌==◌,
  if◌then◌else◌, length, take, drop, replicate,
}
use uptime_service_backend.Base.Text.{Bytes, equal}
use uptime_service_backend.Base.Panics.{◌>>=◌}
use uptime_service_backend.Externals.{Externals, AreBytes}

-- `[33]byte`: one field element and one bit, which takes a byte.
abbrev pub Pk : Type 0
Pk = Bytes

-- `[64]byte`: one field element and one scalar.
abbrev pub Sig : Type 0
Sig = Bytes

abbrev pub pk_length : ℕ
pk_length = 33

abbrev pub sig_length : ℕ
sig_length = 64

abbrev pub pk_prefix : Bytes
pk_prefix = 1 ∷ 1 ∷ []

abbrev pub sig_prefix : Bytes
sig_prefix = 1 ∷ []

abbrev pub pk_version : ℕ
pk_version = 0xcb

abbrev pub sig_version : ℕ
sig_version = 0x9a

abbrev pub nil_pk : Pk
nil_pk = replicate pk_length 0

abbrev pub nil_sig : Sig
nil_sig = replicate sig_length 0

pub data KeyError : Type 0 where
  bad_check bad_version bad_prefix : KeyError
  bad_size : ℕ → KeyError

-- Go's `copy`: the first bytes of `dst` become those of `src`, as many as both have.
abbrev pub copy : Bytes → Bytes → Bytes
copy dst src = take (length dst) src ++ drop (length src) dst

module _ (ext : Externals) where
  -- The common body of StringToPk and StringToSig. The target keeps its value on an error.
  pub decode_check : ℕ → Bytes → ℕ → Bytes → Bytes → Bytes × Option KeyError
  decode_check version prefix len target s = elim (ext.check_decode s) [
    | none ↦ (target, some bad_check)
    | some (bs, ver) ↦
        if not (ver == version)
        then (target, some bad_version)
        else if not (length bs == len + length prefix)
        then (target, some (bad_size (length bs)))
        else if equal (take (length prefix) bs) prefix
        then (copy target (drop (length prefix) bs), none)
        else (target, some bad_prefix)
  ]

  pub string_to_pk : Pk → Bytes → Pk × Option KeyError
  string_to_pk = decode_check pk_version pk_prefix pk_length

  pub string_to_sig : Sig → Bytes → Sig × Option KeyError
  string_to_sig = decode_check sig_version sig_prefix sig_length

  -- `pk.String()`, which is also `pk.Format()`.
  unfoldable pub pk_string : Pk → Bytes
  pk_string pk = ext.check_encode (pk_prefix ++ pk) pk_version

  unfoldable pub marshal_pk : Pk → Bytes
  marshal_pk pk = ext.quote (pk_string pk)

  unfoldable pub marshal_sig : Sig → Bytes
  marshal_sig sig = ext.quote (ext.check_encode (sig_prefix ++ sig) sig_version)

  -- A decoded value, or `none` for an error.
  abbrev pub succeeded : Bytes × Option KeyError → Option Bytes
  succeeded r = elim r.1 [ none ↦ some r.0 | some _ ↦ none ]

  pub unmarshal_pk : Pk → Bytes → Option Pk
  unmarshal_pk target b = do s ← ext.json_string b; succeeded (string_to_pk target s)

  pub unmarshal_sig : Sig → Bytes → Option Sig
  unmarshal_sig target b = do s ← ext.json_string b; succeeded (string_to_sig target s)

pub record IsPk (pk : Pk) : Type 0 where
  pub size : length pk ≡ pk_length
  pub bytes : AreBytes pk

pub record IsSig (sig : Sig) : Type 0 where
  pub size : length sig ≡ sig_length
  pub bytes : AreBytes sig
