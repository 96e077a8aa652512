-- ===== src/Audit/Views.antt =====
-- apps/audit/views.py: `AuditLogListView`, before pagination.
pub mod Scope
use godown_rbac_system.Prelude.{
  ℕ, String, Bool, true, false, ◌&&◌, List, [], ◌∷◌, Option, none, some, str_eq, is_some_of,
  if◌then◌else◌,
}
use godown_rbac_system.Models.{Tenant, AuditLog}
use godown_rbac_system.World.{Db, Env, Action, pure, gets, ◌>>=◌, ◌>>◌}
use godown_rbac_system.Http.{Request, Response, success}
use godown_rbac_system.Common.Gate.{check_permissions, is_authenticated}
use godown_rbac_system.Rbac.Gate.{has_role_permission, tenant_with_text}
use godown_rbac_system.Rbac.Views.{admins}
use godown_rbac_system.Audit.Tasks.{action_code}

-- The query parameters `action` and `actor`.
pub record Filters : Type 0 where
  pub action : Option String
  pub actor : Option String

abbrev given : Option String → (String → Bool) → Bool
given none test = true
given (some s) test = if str_eq s "" then true else test s

module _ (env : Env) (icontains : String → String → Bool) where
  -- The rows that pass both filters; `icontains` is SQL's test of `actor_email__icontains`.
  abbrev pub matches : Filters → AuditLog → Bool
  matches filters a =
      given filters.action (λ s. str_eq (action_code a.action) s)
      && given filters.actor (λ s. icontains a.actor_email s)

  abbrev from_header : Option String → Action (Option Tenant)
  from_header none = pure none
  from_header (some text) = if str_eq text "" then pure none else tenant_with_text env text

  abbrev queried : Option Tenant → Option String → Action (Option Tenant)
  queried (some t) header = pure (some t)
  queried none header = from_header header

  -- The tenant whose rows `get_queryset` returns.
  unfoldable pub queried_tenant : Request → Action (Option Tenant)
  queried_tenant request = queried request.tenant request.x_tenant_id

  abbrev logs_of : Filters → Option Tenant → Db → List AuditLog
  logs_of filters none db = []
  logs_of filters (some t) db =
      env.audit_logs.filter (λ a. is_some_of a.tenant t.id && matches filters a) db.audit_logs

  unfoldable pub get_queryset : Request → Filters → Action (List AuditLog)
  unfolding queried_tenant
  get_queryset request filters = do
    tenant ← queried_tenant request
    gets (λ w. logs_of filters tenant w.db)

  -- `AuditLogListView.get`; its URL has no `tenant_id`.
  unfoldable pub list_logs : Request → Filters → Action (Response (List AuditLog))
  unfolding check_permissions get_queryset
  list_logs request filters = do
    check_permissions request.user
        (is_authenticated request.user ∷ has_role_permission env request none admins ∷ [])
    rows ← get_queryset request filters
    pure (success 200 rows)
