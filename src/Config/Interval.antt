-- ===== src/Config/Interval.antt =====
-- src/delegation_backend/constants.go: SetWhitelistRefreshInterval and SetRequestsPerPkHourly.
use uptime_service_backend.Base.{◌*◌, none, some}
use uptime_service_backend.Base.Int.{ℤ, pos, wrap64, ◌*ℤ◌}
use uptime_service_backend.Base.Text.{Bytes, lit}
use uptime_service_backend.Base.Dict.{Dict, lookup}
use uptime_service_backend.Clock.{Duration, minute}

-- `strconv.Atoi`: the number, or what it returns besides an error (0 for what is no numeral, the
-- nearest int for what is out of range).
pub data Atoi : Type 0 where
  number : ℤ → Atoi
  bad : ℤ → Atoi

module _ (atoi : Bytes → Atoi) where
  -- The default that an error assigns is overwritten at once.
  pub set_whitelist_refresh_interval : Dict Bytes → Duration
  set_whitelist_refresh_interval env =
      elim (lookup (lit "DELEGATION_WHITELIST_REFRESH_INTERVAL") env) [
        | none ↦ pos (10 * minute)
        | some value ↦ elim (atoi value) [
          | number minutes ↦ wrap64 (minutes *ℤ pos minute)
          | bad minutes ↦ wrap64 (minutes *ℤ pos minute)
        ]
      ]

  unfoldable pub set_requests_per_pk_hourly : Dict Bytes → ℤ
  set_requests_per_pk_hourly env = elim (lookup (lit "REQUESTS_PER_PK_HOURLY") env) [
    | none ↦ pos 120
    | some value ↦ elim (atoi value) [ number n ↦ n | bad _ ↦ pos 120 ]
  ]
