-- ===== src/Storage/Backends/Opening.antt =====
-- src/delegation_backend/postgres.go: opening a PostgreSQL database.
use uptime_service_backend.Base.{Bool, not, Option, none, some, ◌++◌, if◌then◌else◌}
use uptime_service_backend.Base.Text.{Bytes, lit}
use uptime_service_backend.Base.Decimal.{itoa}
use uptime_service_backend.Config.{PostgreSqlConfig}

unfoldable pub conn_str : PostgreSqlConfig → Bytes
conn_str cfg =
    lit "host="
    ++ cfg.host
    ++ lit " port="
    ++ itoa cfg.port
    ++ lit " user="
    ++ cfg.user
    ++ lit " password="
    ++ cfg.password
    ++ lit " dbname="
    ++ cfg.db_name
    ++ lit " sslmode="
    ++ cfg.ssl_mode

-- Whether database/sql opens a connection by its text, and whether Ping succeeds on it.
unfoldable pub new_postgre_sql : (Bytes → Bool) → (Bytes → Bool) → PostgreSqlConfig → Option Bytes
new_postgre_sql opens pings cfg =
    let db = conn_str cfg in
    if not (opens db) then none else if not (pings db) then none else some db
