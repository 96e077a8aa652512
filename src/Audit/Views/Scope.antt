-- ===== src/Audit/Views/Scope.antt =====
-- Whose audit logs `AuditLogListView` returns: the permission class takes the tenant from the
-- header X-Tenant-ID first, `get_queryset` takes the tenant of the host first.
use godown_rbac_system.Prelude.{
  String, Bool, true, false, ◌&&◌, List, [], ◌∷◌, none, some, ◌≡◌, refl, inl, inr, Bool-cases,
  select, ◌==◌, str_eq, is_some_of, if◌then◌else◌,
}
use godown_rbac_system.Models.{User, signed_in, Tenant, AuditLog}
use godown_rbac_system.World.{World, Env, ok, err, permission_denied}
use godown_rbac_system.Http.{Request, Response, success}
use godown_rbac_system.Rbac.Queries.{has_role}
use godown_rbac_system.Rbac.Gate.{has_role_permission, tenant_with_text}
use godown_rbac_system.Rbac.Views.{admins}
use godown_rbac_system.Audit.Views.{Filters, matches, list_logs}

module _ (env : Env) (icontains : String → String → Bool) (request : Request) (filters : Filters)
    (u : User) (w : World) (caller : request.user ≡ signed_in u) where
  abbrev pub logs_shown : Tenant → Response (List AuditLog)
  logs_shown t =
      success 200
        (select (λ a. is_some_of a.tenant t.id && matches env icontains filters a) w.db.audit_logs)

  -- Without the header, a host's audit logs are listed for those who are owner or admin of the
  -- host's tenant, only the rows of that tenant that pass the filters, and refused to all others.
  pub list_logs_of_host :
      (t : Tenant)
      → request.tenant ≡ some t
      → request.x_tenant_id ≡ none
      → list_logs env icontains request filters w ≡ (
        if has_role env (some (signed_in u)) t admins w.db
            then ok (logs_shown t)
            else err permission_denied,
        w,
      )
  unfolding list_logs has_role_permission
  list_logs_of_host t host no_header =
      elim (Bool-cases (has_role env (some (signed_in u)) t admins w.db)) [
        | inl holds ↦
            rw (caller, host, no_header, holds, env.audit_logs.filter_lem _ w.db.audit_logs) refl
        | inr lacks ↦ rw (caller, host, no_header, lacks) refl
      ]

  -- An owner or admin of a tenant `a` that the header names gets, on the host of any tenant `b`,
  -- the audit logs of `b`, whatever role the caller has there.
  pub list_logs_of_other :
      (a b : Tenant) (text : String)
      → request.tenant ≡ some b
      → request.x_tenant_id ≡ some text
      → str_eq text "" ≡ false
      → env.parse_uuid text ≡ some a.id
      → select (λ t. t.id == a.id) w.db.tenants ≡ a ∷ []
      → has_role env (some (signed_in u)) a admins w.db ≡ true
      → list_logs env icontains request filters w ≡ (ok (logs_shown b), w)
  unfolding list_logs has_role_permission tenant_with_text
  list_logs_of_other a b text host header given parsed there holds =
      rw
        (
          caller,
          host,
          header,
          given,
          parsed,
          env.tenants.filter_lem (λ t. t.id == a.id) w.db.tenants,
          there,
          holds,
          env.audit_logs.filter_lem _ w.db.audit_logs,
        )
        refl
