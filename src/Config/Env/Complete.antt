-- ===== src/Config/Env/Complete.antt =====
-- src/delegation_backend/app_config.go: what LoadEnv guarantees of a configuration from the environment.
use uptime_service_backend.Base.{
  ◌≡◌, refl, Bool, true, false, Option, none, some, [], ◌∷◌, inl, inr, Bool-cases, if◌then◌else◌,
}
use uptime_service_backend.Base.Int.{ℤ}
use uptime_service_backend.Base.Text.{Bytes, lit, is_empty}
use uptime_service_backend.Base.Dict.{Dict}
use uptime_service_backend.Base.Result.{Result, or_fail, AllOk, AllOk-bind, AllOk-bind_after}
use uptime_service_backend.Config.{
  AwsConfig, AwsKeyspacesConfig, LocalFileSystemConfig, PostgreSqlConfig, AppConfig,
}
use uptime_service_backend.Config.Env.{
  Fatal, not_port, getenv, get_env_checked, bool_env_checked, SheetConfig, load_sheet, load_aws,
  if_set, load_keyspaces, load_postgresql, load_env,
}

abbrev IsGiven : Bytes → Type 0
IsGiven v = is_empty v ≡ false

abbrev AllSome : {A : Type 0} → (A → Type 0) → Option A → Type 0
AllSome P none = Unit
AllSome P (some a) = P a

abbrev AwsIsGiven : AwsConfig → Type 0
AwsIsGiven a = IsGiven a.region × IsGiven a.account_id × IsGiven a.bucket_name_suffix

abbrev KeyspacesIsGiven : AwsKeyspacesConfig → Type 0
KeyspacesIsGiven k = IsGiven k.keyspace × IsGiven k.ssl_certificate_path

abbrev PostgreSqlIsGiven : PostgreSqlConfig → Type 0
PostgreSqlIsGiven p =
    IsGiven p.host × IsGiven p.user × IsGiven p.password × IsGiven p.db_name × IsGiven p.ssl_mode

abbrev SheetIsGiven : Bool → SheetConfig → Type 0
SheetIsGiven true s = Unit
SheetIsGiven false s = IsGiven s.gsheet_id × IsGiven s.list × IsGiven s.column

-- The network's name is given, and so is the sheet unless the whitelist is disabled. Of a backend
-- that is configured these are given: region, account and bucket suffix of S3, keyspace and
-- certificate path of Keyspaces, the path of the file system, and all but the port of PostgreSQL.
abbrev pub IsComplete : AppConfig → Type 0
IsComplete c =
    IsGiven c.network_name
    × SheetIsGiven c.delegation_whitelist_disabled (record {
      gsheet_id = c.gsheet_id;
      list = c.delegation_whitelist_list;
      column = c.delegation_whitelist_column;
    })
    × AllSome AwsIsGiven c.aws
    × AllSome KeyspacesIsGiven c.aws_keyspaces
    × AllSome (λ (l : LocalFileSystemConfig). IsGiven l.path) c.local_file_system
    × AllSome PostgreSqlIsGiven c.postgre_sql

checked-IsGiven : (env : Dict Bytes) (name : Bytes) → AllOk IsGiven (get_env_checked env name)
unfolding get_env_checked
checked-IsGiven env name = elim (Bool-cases (is_empty (getenv env name))) [
  | inl h ↦ rw h tt
  | inr h ↦ rw h h
]

load_sheet-IsGiven :
    (env : Dict Bytes) (disabled : Bool) → AllOk (SheetIsGiven disabled) (load_sheet env disabled)
unfolding load_sheet
load_sheet-IsGiven env true = tt
load_sheet-IsGiven env false =
    AllOk-bind_after (SheetIsGiven false) (get_env_checked env (lit "CONFIG_GSHEET_ID")) _
      (checked-IsGiven env _)
      λ a p.
        AllOk-bind_after (SheetIsGiven false)
          (get_env_checked env (lit "DELEGATION_WHITELIST_LIST")) _ (checked-IsGiven env _)
          λ b q.
            AllOk-bind_after (SheetIsGiven false)
              (get_env_checked env (lit "DELEGATION_WHITELIST_COLUMN")) _ (checked-IsGiven env _)
              λ c r. (p, q, r)

load_aws-IsGiven : (env : Dict Bytes) → AllOk AwsIsGiven (load_aws env)
unfolding load_aws
load_aws-IsGiven env =
    AllOk-bind_after AwsIsGiven (get_env_checked env (lit "AWS_REGION")) _ (checked-IsGiven env _)
      λ a p.
        AllOk-bind_after AwsIsGiven (get_env_checked env (lit "AWS_ACCOUNT_ID")) _
          (checked-IsGiven env _)
          λ b q.
            AllOk-bind_after AwsIsGiven (get_env_checked env (lit "AWS_BUCKET_NAME_SUFFIX")) _
              (checked-IsGiven env _) λ c r. (p, q, r)

module _ (atoi : Bytes → Option ℤ) (env : Dict Bytes) where
  load_keyspaces-IsGiven : AllOk KeyspacesIsGiven (load_keyspaces atoi env)
  unfolding load_keyspaces
  load_keyspaces-IsGiven =
      AllOk-bind_after KeyspacesIsGiven (get_env_checked env (lit "AWS_KEYSPACE")) _
        (checked-IsGiven env _)
        λ a p.
          AllOk-bind_after KeyspacesIsGiven (get_env_checked env (lit "AWS_SSL_CERTIFICATE_PATH")) _
            (checked-IsGiven env _) λ b q. (p, q)

  ssl_mode-IsGiven : (mode : Bytes) → IsGiven (if is_empty mode then lit "require" else mode)
  ssl_mode-IsGiven [] = refl
  ssl_mode-IsGiven (x ∷ xs) = refl

  load_postgresql-IsGiven :
      IsGiven (getenv env (lit "POSTGRES_HOST"))
      → AllOk PostgreSqlIsGiven (load_postgresql atoi env)
  unfolding load_postgresql
  load_postgresql-IsGiven host =
      AllOk-bind_after PostgreSqlIsGiven (get_env_checked env (lit "POSTGRES_USER")) _
        (checked-IsGiven env _)
        λ a p.
          AllOk-bind_after PostgreSqlIsGiven (get_env_checked env (lit "POSTGRES_PASSWORD")) _
            (checked-IsGiven env _)
            λ b q.
              AllOk-bind_after PostgreSqlIsGiven (get_env_checked env (lit "POSTGRES_DB")) _
                (checked-IsGiven env _)
                λ c r.
                  AllOk-bind PostgreSqlIsGiven (get_env_checked env (lit "POSTGRES_PORT")) _ λ d.
                    AllOk-bind PostgreSqlIsGiven (or_fail (atoi d) (not_port (lit "POSTGRES_PORT")))
                      _
                      λ port.
                        (host, p, q, r, ssl_mode-IsGiven (getenv env (lit "POSTGRES_SSLMODE")))

  file_system-IsGiven :
      (path : Bytes)
      → AllSome
          (λ (l : LocalFileSystemConfig). IsGiven l.path)
          (if is_empty path then none else some (record { path = path }))
  file_system-IsGiven [] = tt
  file_system-IsGiven (x ∷ xs) = refl

  if_set-AllSome :
      {A : Type 0} (P : A → Type 0) (name : Bytes) (m : Result Fatal A)
      → (IsGiven (getenv env name) → AllOk P m)
      → AllOk (AllSome P) (if_set env name m)
  if_set-AllSome P name m h = elim (Bool-cases (is_empty (getenv env name))) [
    | inl e ↦ rw e tt
    | inr e ↦ rw e (AllOk-bind_after (AllSome P) m _ (h e) λ a p. p)
  ]

  -- A configuration that LoadEnv reads from the environment has a network name; the sheet, its
  -- list and its column, unless the whitelist is disabled; for S3, where it is configured, the
  -- region, the account and the suffix of the bucket; for Keyspaces the keyspace and the path of
  -- the certificate; for the file system its path; and for PostgreSQL the host, the user, the
  -- password, the database and the SSL mode.
  pub load_env-IsComplete : AllOk IsComplete (load_env atoi env)
  unfolding load_env
  load_env-IsComplete =
      AllOk-bind_after IsComplete (get_env_checked env (lit "CONFIG_NETWORK_NAME")) _
        (checked-IsGiven env _)
        λ name p.
          AllOk-bind IsComplete (bool_env_checked env (lit "VERIFY_SIGNATURE_DISABLED")) _ λ verify.
            AllOk-bind IsComplete (bool_env_checked env (lit "DELEGATION_WHITELIST_DISABLED")) _
              λ disabled.
                AllOk-bind_after IsComplete (load_sheet env disabled) _
                  (load_sheet-IsGiven env disabled)
                  λ sheet q.
                    AllOk-bind_after IsComplete
                      (if_set env (lit "AWS_BUCKET_NAME_SUFFIX") (load_aws env)) _
                      (if_set-AllSome AwsIsGiven (lit "AWS_BUCKET_NAME_SUFFIX") (load_aws env)
                        λ _. load_aws-IsGiven env)
                      λ aws r.
                        AllOk-bind_after IsComplete
                          (if_set env (lit "AWS_KEYSPACE") (load_keyspaces atoi env)) _
                          (if_set-AllSome KeyspacesIsGiven (lit "AWS_KEYSPACE")
                            (load_keyspaces atoi env) λ _. load_keyspaces-IsGiven)
                          λ keyspaces t.
                            AllOk-bind_after IsComplete
                              (if_set env (lit "POSTGRES_HOST") (load_postgresql atoi env)) _
                              (if_set-AllSome PostgreSqlIsGiven (lit "POSTGRES_HOST")
                                (load_postgresql atoi env) load_postgresql-IsGiven)
                              λ postgresql u. (p, q, r, t, file_system-IsGiven _, u)
