-- ===== src/Config.antt =====
-- Settings and outside code that the ledger reads (app/settings.py, Python's arithmetic, the `uuid`
-- and `hashlib` libraries), as parameters.
use forgeapi_homelab.Prelude.{ℕ, String, Option, List}
use forgeapi_homelab.Tenants.{BusinessUnit}

-- Where business units come from: nowhere, the mapping file, or the ledger's own table.
pub data TenantsSource : Type 0 where
  disabled : TenantsSource
  file : List BusinessUnit → TenantsSource
  database : TenantsSource

-- `plan_max_age` is `plan_max_age_hours` in seconds. `fingerprint` is the SHA-256 digest of a
-- request's canonical JSON text, and `uuid n` the number of the n-th UUID that the process draws.
-- `float_add` is Python's `+` on two amounts of money and `float_sum` its `sum` of a list; both
-- round, and `none` is a result that is not finite.
pub record Config : Type 0 where
  pub plan_max_age : Option ℕ
  pub fingerprint : String → String
  pub uuid : ℕ → ℕ
  pub tenants : TenantsSource
  pub float_add : ℕ → ℕ → Option ℕ
  pub float_sum : List ℕ → Option ℕ
