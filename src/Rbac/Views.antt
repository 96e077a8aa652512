-- ===== src/Rbac/Views.antt =====
-- apps/rbac/views.py: each view behind its permission classes, and the lookups of
-- apps/rbac/serializers.py. What a serializer's `is_valid` makes of the request body is the
-- argument `body`, `none` if it raises.
pub mod Guards
pub mod Refusals
pub mod Assigning
use godown_rbac_system.Prelude.{
  ℕ, String, Bool, true, false, ◌&&◌, List, [], ◌∷◌, Option, none, some, map, ◌==◌, str_eq,
  if◌then◌else◌,
}
use godown_rbac_system.Orm.{Got, found, missing, several, get}
use godown_rbac_system.Models.{
  User, Caller, anonymous, signed_in, Tenant, Permission, Role, UserTenantRole,
}
use godown_rbac_system.World.{
  Db, Env, Action, Exc, pure, raise, gets, reads, or_404, invalid_input, multiple_objects, ◌>>=◌,
  ◌>>◌,
}
use godown_rbac_system.Http.{Request, Response, success, failure}
use godown_rbac_system.Common.Gate.{check_permissions, is_authenticated}
use godown_rbac_system.Features.{get_active_features}
use godown_rbac_system.Rbac.Queries.{AuthContext, has_role, get_user_auth_context}
use godown_rbac_system.Rbac.Writes.{create_role}
use godown_rbac_system.Rbac.Assign.{assign_role, revoke_role}
use godown_rbac_system.Rbac.Gate.{has_role_permission}

-- The validated bodies.
pub record RoleCreate : Type 0 where
  pub name : String
  pub slug : String
  pub weight : ℕ
  pub permission_codes : Option (List String)

pub record RoleAssign : Type 0 where
  pub user_id : ℕ
  pub role : String

-- `serializer.is_valid(raise_exception=True)`
abbrev pub validated : {A : Type 0} → String → Option A → Action A
validated field none = raise (invalid_input field)
validated field (some a) = pure a

abbrev caller : Caller → Option User
caller anonymous = none
caller (signed_in u) = some u

-- `required_roles` of the views that change things, and of those that list.
abbrev pub admins : List String
admins = "owner" ∷ "admin" ∷ []

abbrev pub default_slugs : List String
default_slugs = "owner" ∷ "admin" ∷ "member" ∷ []

module _ (env : Env) where
  -- `get_object_or_404(Tenant, id=tenant_id)`
  abbrev pub tenant_or_404 : ℕ → Action Tenant
  tenant_or_404 id = reads (λ db. or_404 (get env.tenants (λ t. t.id == id) db.tenants))

  abbrev or_invalid : Got User → Action User
  or_invalid (found u) = pure u
  or_invalid missing = raise (invalid_input "user_id")
  or_invalid several = raise multiple_objects

  -- `validate_user_id` of both serializers
  unfoldable pub validate_user_id : ℕ → Action User
  validate_user_id id = reads (λ db. or_invalid (get env.users (λ u. u.id == id) db.users))

  -- `permission_classes = [IsAuthenticated, HasRolePermission]`
  unfoldable pub admit : Request → ℕ → List String → Action (Unit {0})
  unfolding check_permissions has_role_permission
  admit request tenant_id roles =
      check_permissions request.user (
        is_authenticated request.user ∷ has_role_permission env request (some tenant_id) roles ∷ [])

  -- `PermissionListView.get`
  unfoldable pub list_permissions : Request → Action (Response (List Permission))
  unfolding check_permissions
  list_permissions request = do
    check_permissions request.user (is_authenticated request.user ∷ [])
    gets (λ w. success 200 w.db.permissions)

  -- `TenantRoleListView.get`
  unfoldable pub list_memberships : Request → ℕ → Action (Response (List UserTenantRole))
  unfolding admit
  list_memberships request tenant_id = do
    admit request tenant_id default_slugs
    tenant ← tenant_or_404 tenant_id
    gets (λ w. success 200 (env.memberships.filter (λ m. m.tenant == tenant.id) w.db.memberships))

  -- `RoleDefinitionListView.get`
  unfoldable pub list_roles : Request → ℕ → Action (Response (List Role))
  unfolding admit
  list_roles request tenant_id = do
    admit request tenant_id default_slugs
    tenant ← tenant_or_404 tenant_id
    gets (λ w. success 200 (env.roles.filter (λ r. r.tenant == tenant.id) w.db.roles))

  abbrev create_or_403 : Tenant → Option RoleCreate → Bool → Action (Response Role)
  create_or_403 tenant body false = pure (failure 403)
  create_or_403 tenant body true = do
    fields ← validated "role" body
    role ← create_role env tenant fields.name fields.slug fields.weight fields.permission_codes
    pure (success 201 role)

  -- `RoleDefinitionListView.post`
  unfoldable pub post_role : Request → ℕ → Option RoleCreate → Action (Response Role)
  unfolding admit
  post_role request tenant_id body = do
    admit request tenant_id default_slugs
    tenant ← tenant_or_404 tenant_id
    allowed ← gets (λ w. has_role env (some request.user) tenant admins w.db)
    create_or_403 tenant body allowed

  -- `AssignRoleView.post`
  unfoldable pub post_assign : Request → ℕ → Option RoleAssign → Action (Response UserTenantRole)
  unfolding admit validate_user_id
  post_assign request tenant_id body = do
    admit request tenant_id admins
    tenant ← tenant_or_404 tenant_id
    fields ← validated "assignment" body
    user ← validate_user_id fields.user_id
    m ← assign_role env user tenant fields.role (caller request.user)
    pure (success 201 m)

  -- `RevokeRoleView.post`
  unfoldable pub post_revoke : Request → ℕ → Option ℕ → Action (Response (Unit {0}))
  unfolding admit validate_user_id
  post_revoke request tenant_id body = do
    admit request tenant_id admins
    tenant ← tenant_or_404 tenant_id
    user_id ← validated "user_id" body
    user ← validate_user_id user_id
    revoke_role env user tenant
    pure (success 204 tt)

  abbrev context_of : Caller → Tenant → Action AuthContext
  context_of anonymous tenant = pure (record { role = none; permissions = [] })
  context_of (signed_in user) tenant = get_user_auth_context env user tenant

  -- `UserAuthContextView.get`
  unfoldable pub get_me : Request → ℕ → Action (Response (AuthContext × List String))
  unfolding check_permissions
  get_me request tenant_id = do
    check_permissions request.user (is_authenticated request.user ∷ [])
    tenant ← tenant_or_404 tenant_id
    context ← context_of request.user tenant
    features ← gets (λ w. get_active_features env (some tenant) w.db)
    pure (success 200 (context, features))
