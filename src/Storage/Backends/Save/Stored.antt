-- ===== src/Storage/Backends/Save/Stored.antt =====
-- src/cmd/delegation_backend/main_bpu.go: what is in the bucket after `app.Save`.
use mathlib.Core.Option.{some-injective}
use uptime_service_backend.Base.{
  ◌≡◌, refl, sym, ap, ◌∙◌, false, some, ◌∷◌, ◌++◌, All, inl, inr, Option-cases, if◌then◌else◌,
}
use uptime_service_backend.Base.Text.{Bytes, equal}
use uptime_service_backend.Base.Dict.{lookup}
use uptime_service_backend.Paths.{ObjectsToSave}
use uptime_service_backend.Config.{AppConfig, AwsConfig}
use uptime_service_backend.Storage.{Readers, Prepared, object_to_save_to_submission}
use uptime_service_backend.Storage.Backends.Objects.{Bucket, Directory, s3_save}
use uptime_service_backend.Storage.Backends.Objects.Stored.{key_of, is_kept, s3_save-stores}
use uptime_service_backend.Storage.Backends.Databases.{Exec, keyspace_save, postgresql_save}
use uptime_service_backend.Storage.Backends.Save.{
  World, save_s3, save_keyspaces, save_postgresql, save_files, save, save_keyspaces-returns,
  save_postgresql-returns,
}

module _ {K P : Type 0} (bucket : Bucket) (keyspaces : Exec K) (postgresql : Exec P)
    (directory : Bytes → Directory) (readers : Readers) (c : AppConfig) (objs : ObjectsToSave) where
  save_keyspaces-bucket :
      (w w' : World K P)
      → save_keyspaces bucket keyspaces postgresql directory readers c objs w ≡ some w'
      → w'.bucket ≡ w.bucket
  save_keyspaces-bucket w w' h = elim (Option-cases c.aws_keyspaces) [
    | inl off ↦ sym (ap (λ (v : World K P). v.bucket) (some-injective _ _ (rw off at h)))
    | inr (k, on) ↦
        elim (Option-cases (keyspace_save keyspaces readers k.keyspace objs w.keyspaces)) [
          | inl panics ↦ let stops = simp (on, save_keyspaces, panics) at h in cc
          | inr (r, saved) ↦ sym (
              ap (λ (v : World K P). v.bucket)
                (some-injective _ _ (simp (on, save_keyspaces, saved) at h)))
        ]
  ]

  save_postgresql-bucket :
      (w w' : World K P)
      → save_postgresql bucket keyspaces postgresql directory readers c objs w ≡ some w'
      → w'.bucket ≡ w.bucket
  save_postgresql-bucket w w' h = elim (Option-cases c.postgre_sql) [
    | inl off ↦ sym (ap (λ (v : World K P). v.bucket) (some-injective _ _ (rw off at h)))
    | inr (k, on) ↦ elim (Option-cases (postgresql_save postgresql readers objs w.postgresql)) [
      | inl panics ↦ let stops = simp (on, save_postgresql, panics) at h in cc
      | inr (r, saved) ↦ sym (
          ap (λ (v : World K P). v.bucket)
            (some-injective _ _ (simp (on, save_postgresql, saved) at h)))
    ]
  ]

  save_files-bucket :
      (w : World K P)
      → (save_files bucket keyspaces postgresql directory readers c objs w).bucket ≡ w.bucket
  save_files-bucket w = elim (Option-cases c.local_file_system) [
    | inl off ↦ rw off refl
    | inr (l, on) ↦ rw on refl
  ]

  -- Save returns, and the other backends leave the bucket as S3Save has left it.
  save-bucket :
      (w : World K P) (p : Prepared)
      → object_to_save_to_submission readers objs ≡ some p
      → (w' : World K P) × (save bucket keyspaces postgresql directory readers c objs w ≡ some w')
        × (w'.bucket ≡ (save_s3 bucket keyspaces postgresql directory readers c objs w).bucket)
  unfolding save
  save-bucket w p read =
      let w0 = save_s3 bucket keyspaces postgresql directory readers c objs w in
      let (w1, first) =
        save_keyspaces-returns bucket keyspaces postgresql directory readers c objs p read w0 in
      let (w2, second) =
        save_postgresql-returns bucket keyspaces postgresql directory readers c objs p read w1 in
      (
        save_files bucket keyspaces postgresql directory readers c objs w2,
        rw (first, save) (rw second refl),
        save_files-bucket w2
            ∙ save_postgresql-bucket w1 w2 second
            ∙ save_keyspaces-bucket w0 w1 first,
      )

-- Where a bucket is configured, the objects can be read back as a submission, and PutObject does not
-- fail at the key of one of them, whose path occurs once, Save returns and leaves that object's
-- bytes at its key below the network's name, whatever the other backends do, unless it is a block
-- that HeadObject finds, which keeps the bytes that it has.
pub save-stores :
    {K P : Type 0} (bucket : Bucket) (keyspaces : Exec K) (postgresql : Exec P)
    (directory : Bytes → Directory) (readers : Readers) (c : AppConfig) (aws : AwsConfig)
    (path bs : Bytes) (before after : ObjectsToSave) (p : Prepared) (w : World K P)
    → c.aws ≡ some aws
    → object_to_save_to_submission readers (before ++ (path, bs) ∷ after) ≡ some p
    → All (λ o. equal o.0 path ≡ false) before
    → All (λ o. equal o.0 path ≡ false) after
    → bucket.put_fails (key_of c.network_name path) ≡ false
    → (w' : World K P) × (save bucket keyspaces postgresql directory readers c
          (before ++ (path, bs) ∷ after)
          w
        ≡ some w')
      × (lookup (key_of c.network_name path) w'.bucket ≡ (
          if is_kept bucket c.network_name path w.bucket
          then lookup (key_of c.network_name path) w.bucket
          else some bs))
save-stores {K} {P} bucket keyspaces postgresql directory readers c aws path bs before after p w
      configured read first rest puts =
    let objs = before ++ (path, bs) ∷ after in
    let (w', saved, left) =
      save-bucket bucket keyspaces postgresql directory readers c objs w p read in
    let by_s3 : (save_s3 bucket keyspaces postgresql directory readers c objs w).bucket
        ≡ s3_save bucket c.network_name objs w.bucket =
      rw configured refl in
    (
      w',
      saved,
      ap (lookup (key_of c.network_name path)) (left ∙ by_s3)
          ∙ s3_save-stores bucket c.network_name path bs before after w.bucket first rest puts,
    )
