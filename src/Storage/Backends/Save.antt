-- ===== src/Storage/Backends/Save.antt =====
-- src/cmd/delegation_backend/main_bpu.go: `app.Save`, every configured backend in turn.
pub mod Stored
use uptime_service_backend.Base.{
  ◌≡◌, refl, inl, inr, Option-cases, Bool, true, false, not, ◌&&◌, Option, none, some,
}
use uptime_service_backend.Base.Panics.{◌>>=◌}
use uptime_service_backend.Base.Text.{Bytes}
use uptime_service_backend.Base.Dict.{Dict}
use uptime_service_backend.Paths.{ObjectsToSave}
use uptime_service_backend.Config.{AppConfig}
use uptime_service_backend.Storage.{Readers, Prepared, object_to_save_to_submission}
use uptime_service_backend.Storage.Backends.Objects.{
  Bucket, Directory, s3_save, local_file_system_save,
}
use uptime_service_backend.Storage.Backends.Databases.{
  Exec, keyspace_save, postgresql_save, keyspace_save-returns, postgresql_save-returns,
}

-- What the backends write to: a bucket, two databases and a file system.
pub record World (K P : Type 0) : Type 0 where
  pub bucket : Dict Bytes
  pub keyspaces : K
  pub postgresql : P
  pub files : Dict Bytes

abbrev pub is_set : {A : Type 0} → Option A → Bool
is_set none = false
is_set (some a) = true

-- The start-up check: the program stops unless it holds. PostgreSQL is not among the three.
unfoldable pub has_backend : AppConfig → Bool
has_backend c =
    not (not (is_set c.aws) && not (is_set c.local_file_system) && not (is_set c.aws_keyspaces))

module _ {K P : Type 0} (bucket : Bucket) (keyspaces : Exec K) (postgresql : Exec P)
    (directory : Bytes → Directory) (readers : Readers) where
  abbrev save_s3 : AppConfig → ObjectsToSave → World K P → World K P
  save_s3 c objs w = elim c.aws [
    | none ↦ w
    | some _ ↦ record w { bucket = s3_save bucket c.network_name objs w.bucket }
  ]

  abbrev save_keyspaces : AppConfig → ObjectsToSave → World K P → Option (World K P)
  save_keyspaces c objs w = elim c.aws_keyspaces [
    | none ↦ some w
    | some k ↦ elim (keyspace_save keyspaces readers k.keyspace objs w.keyspaces) [
      | none ↦ none
      | some (_, k') ↦ some (record w { keyspaces = k' })
    ]
  ]

  abbrev save_postgresql : AppConfig → ObjectsToSave → World K P → Option (World K P)
  save_postgresql c objs w = elim c.postgre_sql [
    | none ↦ some w
    | some _ ↦ elim (postgresql_save postgresql readers objs w.postgresql) [
      | none ↦ none
      | some (_, p') ↦ some (record w { postgresql = p' })
    ]
  ]

  abbrev save_files : AppConfig → ObjectsToSave → World K P → World K P
  save_files c objs w = elim c.local_file_system [
    | none ↦ w
    | some l ↦ record w { files = local_file_system_save (directory l.path) objs w.files }
  ]

  -- `none` is a panic of a database backend, after which the later ones do not run.
  pub save : AppConfig → ObjectsToSave → World K P → Option (World K P)
  save c objs w = save_keyspaces c objs (save_s3 c objs w) >>= λ w'.
      save_postgresql c objs w' >>= λ w''. some (save_files c objs w'')

  module _ (c : AppConfig) (objs : ObjectsToSave) (p : Prepared)
      (read : object_to_save_to_submission readers objs ≡ some p) where
    save_keyspaces-returns :
        (w : World K P) → (w' : World K P) × (save_keyspaces c objs w ≡ some w')
    save_keyspaces-returns w = elim (Option-cases c.aws_keyspaces) [
      | inl off ↦ (w, simp (off, save_keyspaces))
      | inr (k, on) ↦
          let (r, saved) =
            keyspace_save-returns keyspaces readers objs w.keyspaces k.keyspace p read in
          (record w { keyspaces = r.1 }, simp (on, save_keyspaces, saved))
    ]

    save_postgresql-returns :
        (w : World K P) → (w' : World K P) × (save_postgresql c objs w ≡ some w')
    save_postgresql-returns w = elim (Option-cases c.postgre_sql) [
      | inl off ↦ (w, simp (off, save_postgresql))
      | inr (k, on) ↦
          let (r, saved) = postgresql_save-returns postgresql readers objs w.postgresql p read in
          (record w { postgresql = r.1 }, simp (on, save_postgresql, saved))
    ]

    -- Save panics only where the objects cannot be read back.
    pub save-returns : (w : World K P) → (w' : World K P) × (save c objs w ≡ some w')
    unfolding save
    save-returns w =
        let (w1, first) = save_keyspaces-returns (save_s3 c objs w) in
        let (w2, second) = save_postgresql-returns w1 in
        (save_files c objs w2, rw (first, save) (rw second refl))
