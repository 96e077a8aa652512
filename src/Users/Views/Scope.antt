-- ===== src/Users/Views/Scope.antt =====
-- Whose users `UserListView` returns: as with the audit logs, the permission class and the
-- queryset do not look for the tenant in the same place.
use godown_rbac_system.Prelude.{
  String, true, false, ◌&&◌, List, [], ◌∷◌, none, some, ◌≡◌, refl, inl, inr, Bool-cases, select,
  any, ◌==◌, str_eq, if◌then◌else◌,
}
use godown_rbac_system.Models.{User, signed_in, Tenant}
use godown_rbac_system.World.{World, Env, ok, err, permission_denied}
use godown_rbac_system.Http.{Request, Response, success}
use godown_rbac_system.Rbac.Queries.{has_role}
use godown_rbac_system.Rbac.Gate.{has_role_permission, tenant_with_text}
use godown_rbac_system.Rbac.Views.{admins}
use godown_rbac_system.Users.Views.{list_users}

module _ (env : Env) (request : Request) (u : User) (w : World)
    (caller : request.user ≡ signed_in u) where
  -- The users with an assignment in the tenant.
  abbrev pub users_shown : Tenant → Response (List User)
  users_shown t =
      success 200
        (select (λ v. any (λ m. m.user == v.id && m.tenant == t.id) w.db.memberships) w.db.users)

  -- Without the header, a host's users are listed for those who are owner or admin of the host's
  -- tenant, only users with an assignment in that tenant, and refused to all others.
  pub list_users_of_host :
      (t : Tenant)
      → request.tenant ≡ some t
      → request.x_tenant_id ≡ none
      → list_users env request w ≡ (
        if has_role env (some (signed_in u)) t admins w.db
            then ok (users_shown t)
            else err permission_denied,
        w,
      )
  unfolding list_users has_role_permission
  list_users_of_host t host no_header =
      elim (Bool-cases (has_role env (some (signed_in u)) t admins w.db)) [
        | inl holds ↦ rw (caller, host, no_header, holds, env.users.filter_lem _ w.db.users) refl
        | inr lacks ↦ rw (caller, host, no_header, lacks) refl
      ]

  -- An owner or admin of a tenant `a` that the header names gets, on the host of any tenant `b`,
  -- the users of `b`, whatever role the caller has there.
  pub list_users_of_other :
      (a b : Tenant) (text : String)
      → request.tenant ≡ some b
      → request.x_tenant_id ≡ some text
      → str_eq text "" ≡ false
      → env.parse_uuid text ≡ some a.id
      → select (λ t. t.id == a.id) w.db.tenants ≡ a ∷ []
      → has_role env (some (signed_in u)) a admins w.db ≡ true
      → list_users env request w ≡ (ok (users_shown b), w)
  unfolding list_users has_role_permission tenant_with_text
  list_users_of_other a b text host header given parsed there holds =
      rw
        (
          caller,
          host,
          header,
          given,
          parsed,
          env.tenants.filter_lem (λ t. t.id == a.id) w.db.tenants,
          there,
          holds,
          env.users.filter_lem _ w.db.users,
        )
        refl
