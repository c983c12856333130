-- ===== src/Storage/Backends/Objects/Stored.antt =====
-- src/delegation_backend/submit.go: what S3Save leaves in the bucket.
use uptime_service_backend.Base.{
  ◌≡◌, refl, ap, ◌∙◌, Bool, true, false, not, ◌&&◌, Option, none, some, [], ◌∷◌, ◌++◌, arith,
  if◌then◌else◌, All,
}
use uptime_service_backend.Base.Text.{Bytes, lit, has_prefix, equal, equal_refl}
use uptime_service_backend.Base.Dict.{Dict, lookup, lookup-insert}
use uptime_service_backend.Paths.{ObjectsToSave}
use uptime_service_backend.Storage.Backends.Objects.{
  Bucket, is_present, put_object, s3_save_one, s3_save,
}

-- The key of a path.
abbrev pub key_of : Bytes → Bytes → Bytes
key_of prefix path = prefix ++ lit "/" ++ path

equal-append : (p a b : Bytes) → equal (p ++ a) (p ++ b) ≡ equal a b
unfolding equal
equal-append [] a b = refl
equal-append (x ∷ p) a b = ground (arith, equal-append p a b)

-- A block that HeadObject finds is kept.
abbrev pub is_kept : Bucket → Bytes → Bytes → Dict Bytes → Bool
is_kept b prefix path store =
    has_prefix path (lit "blocks/")
    && (not (b.head_fails (key_of prefix path)) && is_present (key_of prefix path) store)

module _ (b : Bucket) (prefix path : Bytes) where
  s3_save_one-other :
      (o : Bytes × Bytes) (store : Dict Bytes)
      → equal o.0 path ≡ false
      → lookup (key_of prefix path) (s3_save_one b prefix o store)
        ≡ lookup (key_of prefix path) store
  unfolding s3_save_one put_object
  s3_save_one-other (p, bs) store apart = ground (
    arith,
    apart,
    equal-append (prefix ++ lit "/") p path,
    lookup-insert (key_of prefix p) (key_of prefix path) bs store,
  )

  s3_save-others :
      (objs : ObjectsToSave) (store : Dict Bytes)
      → All (λ o. equal o.0 path ≡ false) objs
      → lookup (key_of prefix path) (s3_save b prefix objs store)
        ≡ lookup (key_of prefix path) store
  unfolding s3_save
  s3_save-others [] store apart = refl
  s3_save-others (o ∷ objs) store (first, rest) =
      s3_save-others objs (s3_save_one b prefix o store) rest ∙ s3_save_one-other o store first

  s3_save_one-own :
      (bs : Bytes) (store : Dict Bytes)
      → b.put_fails (key_of prefix path) ≡ false
      → lookup (key_of prefix path) (s3_save_one b prefix (path, bs) store)
        ≡ (if is_kept b prefix path store then lookup (key_of prefix path) store else some bs)
  unfolding s3_save_one put_object
  s3_save_one-own bs store works = ground (
    arith,
    works,
    equal_refl (key_of prefix path),
    lookup-insert (key_of prefix path) (key_of prefix path) bs store,
  )

  -- If PutObject does not fail at the key of an object whose path occurs once in the map, S3Save
  -- leaves the object's bytes there, whatever becomes of the others, unless it is a block that
  -- HeadObject finds, which keeps the bytes that it has.
  pub s3_save-stores :
      (bs : Bytes) (before after : ObjectsToSave) (store : Dict Bytes)
      → All (λ o. equal o.0 path ≡ false) before
      → All (λ o. equal o.0 path ≡ false) after
      → b.put_fails (key_of prefix path) ≡ false
      → lookup (key_of prefix path) (s3_save b prefix (before ++ (path, bs) ∷ after) store)
        ≡ (if is_kept b prefix path store then lookup (key_of prefix path) store else some bs)
  unfolding s3_save
  s3_save-stores bs [] after store none_before apart works =
      s3_save-others after (s3_save_one b prefix (path, bs) store) apart
      ∙ s3_save_one-own bs store works
  s3_save-stores bs (o ∷ before) after store (first, rest) apart works =
      s3_save-stores bs before after (s3_save_one b prefix o store) rest apart works
      ∙ ap (λ (v : Option Bytes). decide v) (s3_save_one-other o store first)
    where
      decide : Option Bytes → Option Bytes
      decide v =
          if has_prefix path (lit "blocks/")
            && (not (b.head_fails (key_of prefix path)) && elim v [ none ↦ false | some _ ↦ true ])
          then v
          else some bs
