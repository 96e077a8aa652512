-- ===== src/Http.antt =====
-- The parts of a request that the views, the middleware and the audit trail read, and the
-- response with its data.
use godown_rbac_system.Prelude.{ℕ, String, Option}
use godown_rbac_system.Models.{Caller, Tenant}

pub record Request : Type 0 where
  pub path : String
  -- `get_host()`, with its port if there is one
  pub host : String
  pub user : Caller
  -- `request.tenant`, as TenantMiddleware left it
  pub tenant : Option Tenant
  -- the header `X-Tenant-ID`
  pub x_tenant_id : Option String
  -- `META`: `HTTP_X_FORWARDED_FOR`, `REMOTE_ADDR` and `HTTP_USER_AGENT`
  pub forwarded_for : Option String
  pub remote_addr : Option String
  pub user_agent : Option String

-- A status, and the data where the status is one of success.
pub data Response (A : Type 0) : Type 0 where
  success : ℕ → A → Response A
  failure : ℕ → Response A
