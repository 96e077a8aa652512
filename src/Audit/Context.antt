-- ===== src/Audit/Context.antt =====
-- apps/audit/context.py: `AuditContextMiddleware` around the rest of a request.
use godown_rbac_system.Prelude.{none, some}
use godown_rbac_system.World.{World, Action, Result, AuditContext}
use godown_rbac_system.Http.{Request}
use godown_rbac_system.Audit.Service.{get_client_ip, or_empty}

abbrev pub empty_context : AuditContext
empty_context = record { user = none; tenant = none; ip_address = none; user_agent = "" }

-- What `__call__` sets; `request.user` is always there once Django's authentication ran.
unfoldable pub captured : Request → AuditContext
unfolding get_client_ip
captured request = record {
  user = some request.user;
  tenant = request.tenant;
  ip_address = get_client_ip request;
  user_agent = or_empty request.user_agent;
}

abbrev cleared : {A : Type 0} → Result A × World → Result A × World
cleared (result, w) = (result, record w { context = empty_context })

-- `finally` runs on both ways out; `get_audit_context` reads None as the empty user agent.
unfoldable pub audit_context_middleware : {A : Type 0} → Request → Action A → Action A
unfolding captured
audit_context_middleware request get_response w =
    cleared (get_response (record w { context = captured request }))
