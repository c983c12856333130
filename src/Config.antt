-- ===== src/Config.antt =====
-- src/delegation_backend/app_config.go and constants.go: the configuration, from a file or from the
-- environment. The environment is a dictionary; `log.Fatalf`, which ends the program, is an error
-- value.
pub mod Env
pub mod Interval
mod Tests
use uptime_service_backend.Base.{ℕ, Bool, true, false, Option, none, some, ◌++◌}
use uptime_service_backend.Base.Int.{ℤ}
use uptime_service_backend.Base.Text.{Bytes, lit, equal}

pub record AwsConfig : Type 0 where
  pub account_id : Bytes
  pub bucket_name_suffix : Bytes
  pub region : Bytes
  pub access_key_id : Bytes
  pub secret_access_key : Bytes

pub record AwsKeyspacesConfig : Type 0 where
  pub keyspace : Bytes
  pub cassandra_host : Bytes
  pub cassandra_port : ℤ
  pub cassandra_username : Bytes
  pub cassandra_password : Bytes
  pub region : Bytes
  pub access_key_id : Bytes
  pub secret_access_key : Bytes
  pub web_identity_token_file : Bytes
  pub role_session_name : Bytes
  pub role_arn : Bytes
  pub ssl_certificate_path : Bytes

pub record LocalFileSystemConfig : Type 0 where
  pub path : Bytes

pub record PostgreSqlConfig : Type 0 where
  pub host : Bytes
  pub port : ℤ
  pub user : Bytes
  pub password : Bytes
  pub db_name : Bytes
  pub ssl_mode : Bytes

-- A nil pointer is `none`.
pub record AppConfig : Type 0 where
  pub network_name : Bytes
  pub gsheet_id : Bytes
  pub delegation_whitelist_list : Bytes
  pub delegation_whitelist_column : Bytes
  pub delegation_whitelist_disabled : Bool
  pub verify_signature_disabled : Bool
  pub aws : Option AwsConfig
  pub aws_keyspaces : Option AwsKeyspacesConfig
  pub local_file_system : Option LocalFileSystemConfig
  pub postgre_sql : Option PostgreSqlConfig

pub get_aws_bucket_name : AppConfig → Bytes
get_aws_bucket_name config = elim config.aws [
  | none ↦ lit ""
  | some aws ↦ aws.account_id ++ lit "-" ++ aws.bucket_name_suffix
]

unfoldable pub network_id : Bytes → ℕ
network_id network_name = elim (equal network_name (lit "mainnet")) [ true ↦ 1 | false ↦ 0 ]
