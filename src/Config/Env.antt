-- ===== src/Config/Env.antt =====
-- src/delegation_backend/app_config.go: LoadEnv where CONFIG_FILE is not set.
pub mod Complete
pub mod File
use uptime_service_backend.Base.{
  ◌≡◌, ◌≢◌, refl, Bool, true, false, Option, none, some, if◌then◌else◌, inl, inr, Bool-cases,
}
use uptime_service_backend.Base.Int.{ℤ, pos}
use uptime_service_backend.Base.Text.{Bytes, lit, equal, is_empty}
use uptime_service_backend.Base.Dict.{Dict, lookup}
use uptime_service_backend.Base.Result.{Result, ok, err, ◌>>=◌, ◌>>◌, or_fail}
use uptime_service_backend.Config.{
  AwsConfig, AwsKeyspacesConfig, LocalFileSystemConfig, PostgreSqlConfig, AppConfig,
}

-- The variable that a fatal message names.
pub data Fatal : Type 0 where
  missing : Bytes → Fatal
  not_bool : Bytes → Fatal
  not_port : Bytes → Fatal

-- `os.Getenv`
unfoldable pub getenv : Dict Bytes → Bytes → Bytes
getenv env variable = elim (lookup variable env) [ none ↦ lit "" | some value ↦ value ]

pub get_env_checked : Dict Bytes → Bytes → Result Fatal Bytes
get_env_checked env variable =
    let value = getenv env variable in if is_empty value then err (missing variable) else ok value

pub bool_env_checked : Dict Bytes → Bytes → Result Fatal Bool
bool_env_checked env variable =
    let value = getenv env variable in
    if equal value (lit "1")
    then ok true
    else if equal value (lit "0")
    then ok false
    else if is_empty value
    then ok false
    else err (not_bool variable)

-- The names of the sheet, its list and its column; the whitelist needs all of them.
pub record SheetConfig : Type 0 where
  pub gsheet_id : Bytes
  pub list : Bytes
  pub column : Bytes

pub load_sheet : Dict Bytes → Bool → Result Fatal SheetConfig
load_sheet env true = ok (record {
  gsheet_id = getenv env (lit "CONFIG_GSHEET_ID");
  list = getenv env (lit "DELEGATION_WHITELIST_LIST");
  column = getenv env (lit "DELEGATION_WHITELIST_COLUMN");
})
load_sheet env false = do
  gsheet_id ← get_env_checked env (lit "CONFIG_GSHEET_ID")
  list ← get_env_checked env (lit "DELEGATION_WHITELIST_LIST")
  column ← get_env_checked env (lit "DELEGATION_WHITELIST_COLUMN")
  ok (record { gsheet_id = gsheet_id; list = list; column = column })

-- A part of the configuration that is read only if a variable is not empty.
abbrev pub if_set : {A : Type 0} → Dict Bytes → Bytes → Result Fatal A → Result Fatal (Option A)
if_set env variable read =
    if is_empty (getenv env variable) then ok none else (read >>= λ a. ok (some a))

pub load_aws : Dict Bytes → Result Fatal AwsConfig
load_aws env = do
  region ← get_env_checked env (lit "AWS_REGION")
  account_id ← get_env_checked env (lit "AWS_ACCOUNT_ID")
  bucket_name_suffix ← get_env_checked env (lit "AWS_BUCKET_NAME_SUFFIX")
  ok (record {
    account_id = account_id;
    bucket_name_suffix = bucket_name_suffix;
    region = region;
    access_key_id = getenv env (lit "AWS_ACCESS_KEY_ID");
    secret_access_key = getenv env (lit "AWS_SECRET_ACCESS_KEY");
  })

-- `strconv.Atoi`, for which `none` is an error, is a parameter.
module _ (atoi : Bytes → Option ℤ) where
  pub load_keyspaces : Dict Bytes → Result Fatal AwsKeyspacesConfig
  load_keyspaces env = do
    keyspace ← get_env_checked env (lit "AWS_KEYSPACE")
    ssl_certificate_path ← get_env_checked env (lit "AWS_SSL_CERTIFICATE_PATH")
    ok (record {
      keyspace = keyspace;
      cassandra_host = getenv env (lit "CASSANDRA_HOST");
      cassandra_port = elim (atoi (getenv env (lit "CASSANDRA_PORT"))) [
        | none ↦ pos 9142
        | some n ↦ n
      ];
      cassandra_username = getenv env (lit "CASSANDRA_USERNAME");
      cassandra_password = getenv env (lit "CASSANDRA_PASSWORD");
      region = getenv env (lit "AWS_REGION");
      access_key_id = getenv env (lit "AWS_ACCESS_KEY_ID");
      secret_access_key = getenv env (lit "AWS_SECRET_ACCESS_KEY");
      web_identity_token_file = getenv env (lit "AWS_WEB_IDENTITY_TOKEN_FILE");
      role_session_name = getenv env (lit "AWS_ROLE_SESSION_NAME");
      role_arn = getenv env (lit "AWS_ROLE_ARN");
      ssl_certificate_path = ssl_certificate_path;
    })

  pub load_postgresql : Dict Bytes → Result Fatal PostgreSqlConfig
  load_postgresql env = do
    user ← get_env_checked env (lit "POSTGRES_USER")
    password ← get_env_checked env (lit "POSTGRES_PASSWORD")
    db_name ← get_env_checked env (lit "POSTGRES_DB")
    port_text ← get_env_checked env (lit "POSTGRES_PORT")
    port ← or_fail (atoi port_text) (not_port (lit "POSTGRES_PORT"))
    let ssl_mode = getenv env (lit "POSTGRES_SSLMODE")
    ok (record {
      host = getenv env (lit "POSTGRES_HOST");
      port = port;
      user = user;
      password = password;
      db_name = db_name;
      ssl_mode = if is_empty ssl_mode then lit "require" else ssl_mode;
    })

  pub load_env : Dict Bytes → Result Fatal AppConfig
  load_env env = do
    network_name ← get_env_checked env (lit "CONFIG_NETWORK_NAME")
    verify_signature_disabled ← bool_env_checked env (lit "VERIFY_SIGNATURE_DISABLED")
    delegation_whitelist_disabled ← bool_env_checked env (lit "DELEGATION_WHITELIST_DISABLED")
    sheet ← load_sheet env delegation_whitelist_disabled
    aws ← if_set env (lit "AWS_BUCKET_NAME_SUFFIX") (load_aws env)
    aws_keyspaces ← if_set env (lit "AWS_KEYSPACE") (load_keyspaces env)
    let path = getenv env (lit "CONFIG_FILESYSTEM_PATH")
    postgre_sql ← if_set env (lit "POSTGRES_HOST") (load_postgresql env)
    ok (record {
      network_name = network_name;
      gsheet_id = sheet.gsheet_id;
      delegation_whitelist_list = sheet.list;
      delegation_whitelist_column = sheet.column;
      delegation_whitelist_disabled = delegation_whitelist_disabled;
      verify_signature_disabled = verify_signature_disabled;
      aws = aws;
      aws_keyspaces = aws_keyspaces;
      local_file_system = if is_empty path then none else some (record { path = path });
      postgre_sql = postgre_sql;
    })
