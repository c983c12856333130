-- ===== src/Keys/Codec.antt =====
-- The texts of keys and signatures: what decodes, to what, and that texts decode to what they encode.
use mathlib.Core.List.{append-nil}
use uptime_service_backend.Base.{
  ℕ, ◌+◌, ◌≡◌, ◌≢◌, ◌∙◌, true, Option, none, some, [], ◌++◌, inl, inr, arith, ◌==◌, ==_iff,
  All-append, Bool-cases, Option-cases, length, take, drop, length-append, take-append, drop-append,
  take-length, drop-length, length-drop, take-append-drop, sym, ◌⊎◌, ap,
}
use uptime_service_backend.Base.Text.{Bytes, equal, equal→eq, equal_refl}
use uptime_service_backend.Externals.{Externals, IsBase58, IsJson}
use uptime_service_backend.Keys.{
  Pk, Sig, pk_length, pk_prefix, pk_version, sig_prefix, sig_version, sig_length, KeyError, copy,
  decode_check, bad_check, bad_version, bad_prefix, bad_size, string_to_pk, string_to_sig,
  pk_string, marshal_pk, marshal_sig, unmarshal_pk, unmarshal_sig, IsPk, IsSig,
}

copy-all : (target src : Bytes) → length src ≡ length target → copy target src ≡ src
copy-all target src e =
    let kept : take (length target) src ≡ src = rw (← e) (take-length src) in
    let none_left : drop (length src) target ≡ [] = rw e (drop-length target) in
    rw (kept, none_left) (append-nil src)

module _ (ext : Externals) (version : ℕ) (prefix : Bytes) (len : ℕ) (target : Bytes) where
  decode_check-ok :
      (s key : Bytes)
      → length target ≡ len
      → length key ≡ len
      → ext.check_decode s ≡ some (prefix ++ key, version)
      → decode_check ext version prefix len target s ≡ (key, none)
  unfolding decode_check
  decode_check-ok s key t k e =
      let same : (version == version) ≡ true = ground arith in
      let size : (length (prefix ++ key) == len + length prefix) ≡ true =
        ground (arith, length-append prefix key) in
      rw (
        e,
        decode_check,
        same,
        size,
        take-append prefix key,
        equal_refl prefix,
        drop-append prefix key,
        copy-all target key (k ∙ sym t),
      )

  -- An error, which leaves the target alone, and a text that encodes no key.
  abbrev pub Rejected : Bytes → Type 0
  Rejected s =
      (e : KeyError) × (decode_check ext version prefix len target s ≡ (target, some e))
      × ((key : Bytes) → length key ≡ len → ext.check_decode s ≢ some (prefix ++ key, version))

  rejected :
      (s : Bytes) (e : KeyError)
      → length target ≡ len
      → decode_check ext version prefix len target s ≡ (target, some e)
      → Rejected s
  rejected s e t h = (
    e,
    h,
    λ key k encoded.
        let decoded = decode_check-ok s key t k encoded in
        let kinds = ap (λ (r : Bytes × Option KeyError). r.1) (sym decoded ∙ h) in cc,
  )

  -- A text is decoded to a key exactly if it is the base58check text of the prefix and that key,
  -- under the version, and the key has the right length; any other text leaves the target alone.
  pub decode_check_cases :
      (s : Bytes)
      → length target ≡ len
      → ((key : Bytes) × (length key ≡ len)
          × (ext.check_decode s ≡ some (prefix ++ key, version))
          × (decode_check ext version prefix len target s ≡ (key, none)))
        ⊎ Rejected s
  unfolding decode_check
  decode_check_cases s t = elim (Option-cases (ext.check_decode s)) [
    | inl bad ↦ inr (rejected s bad_check t (rw (bad, decode_check)))
    | inr ((bs, ver), e) ↦ elim (Bool-cases (ver == version)) [
      | inr other ↦ inr (rejected s bad_version t (rw (e, decode_check, other)))
      | inl same ↦ elim (Bool-cases (length bs == len + length prefix)) [
        | inr wrong ↦ inr (rejected s (bad_size (length bs)) t (rw (e, decode_check, same, wrong)))
        | inl size ↦ elim (Bool-cases (equal (take (length prefix) bs) prefix)) [
          | inr foreign ↦ inr (rejected s bad_prefix t (rw (e, decode_check, same, size, foreign)))
          | inl own ↦
              let key = drop (length prefix) bs in
              let long : length key ≡ len = ground (arith, length-drop (length prefix) bs) in
              let whole : bs ≡ prefix ++ key =
                sym (take-append-drop (length prefix) bs)
                ∙ ap (λ z. z ++ key) (equal→eq (take (length prefix) bs) prefix own) in
              let exact : ext.check_decode s ≡ some (prefix ++ key, version) =
                e ∙ cc (whole, (==_iff ver version).0 same) in
              inl (key, long, exact, decode_check-ok s key t long exact)
        ]
      ]
    ]
  ]

module _ (ext : Externals) (base58 : IsBase58 ext) (json : IsJson ext) where
  pub string_to_pk-pk_string :
      (pk target : Pk)
      → IsPk pk
      → length target ≡ pk_length
      → string_to_pk ext target (pk_string ext pk) ≡ (pk, none)
  unfolding string_to_pk pk_string
  string_to_pk-pk_string pk target v t =
      decode_check-ok ext pk_version pk_prefix pk_length target _ pk t v.size (
        base58.inverts (pk_prefix ++ pk) pk_version
          (All-append _ pk_prefix pk (omega arith) v.bytes) (omega arith))

  -- A public key that is written as JSON is read back as itself.
  pub unmarshal_pk-marshal_pk :
      (pk target : Pk)
      → IsPk pk
      → length target ≡ pk_length
      → unmarshal_pk ext target (marshal_pk ext pk) ≡ some pk
  unfolding unmarshal_pk marshal_pk pk_string
  unmarshal_pk-marshal_pk pk target v t =
      rw (json (pk_string ext pk) (base58.ascii (pk_prefix ++ pk) pk_version))
        (rw (string_to_pk-pk_string pk target v t))

  -- A signature that is written as JSON is read back as itself.
  pub unmarshal_sig-marshal_sig :
      (sig target : Sig)
      → IsSig sig
      → length target ≡ sig_length
      → unmarshal_sig ext target (marshal_sig ext sig) ≡ some sig
  unfolding unmarshal_sig marshal_sig string_to_sig
  unmarshal_sig-marshal_sig sig target v t =
      let text =
        base58.inverts (sig_prefix ++ sig) sig_version
          (All-append _ sig_prefix sig (omega arith) v.bytes) (omega arith) in
      rw (json _ (base58.ascii (sig_prefix ++ sig) sig_version))
        (rw (decode_check-ok ext sig_version sig_prefix sig_length target _ sig t v.size text))
