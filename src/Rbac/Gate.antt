-- ===== src/Rbac/Gate.antt =====
-- apps/rbac/permissions.py: `_resolve_tenant`, `require_role` and `HasRolePermission`.
use godown_rbac_system.Prelude.{
  ℕ, String, Bool, true, false, List, [], ◌∷◌, Option, none, some, ◌==◌, str_eq, if◌then◌else◌,
}
use godown_rbac_system.Orm.{get}
use godown_rbac_system.Models.{Caller, anonymous, signed_in, Tenant}
use godown_rbac_system.World.{
  Db, Env, Action, pure, raise, gets, reads, optional, permission_denied, bad_uuid, ◌>>=◌,
}
use godown_rbac_system.Http.{Request}
use godown_rbac_system.Rbac.Queries.{has_role}

module _ (env : Env) where
  -- `Tenant.objects.get(id=…)`, and None when there is no such tenant
  unfoldable pub tenant_with_id : ℕ → Action (Option Tenant)
  tenant_with_id id = reads (λ db. optional (get env.tenants (λ t. t.id == id) db.tenants))

  abbrev with_parsed : Option ℕ → Action (Option Tenant)
  with_parsed none = raise bad_uuid
  with_parsed (some id) = tenant_with_id id

  -- The same by a header's text.
  unfoldable pub tenant_with_text : String → Action (Option Tenant)
  unfolding tenant_with_id
  tenant_with_text text = with_parsed (env.parse_uuid text)

  abbrev by_header : Option String → Option Tenant → Action (Option Tenant)
  by_header none fallback = pure fallback
  by_header (some text) fallback = if str_eq text "" then pure fallback else tenant_with_text text

  abbrev resolve : Option ℕ → Request → Action (Option Tenant)
  resolve (some id) request = tenant_with_id id
  resolve none request = by_header request.x_tenant_id request.tenant

  -- `kwarg` is the `tenant_id` of the URL.
  unfoldable pub resolve_tenant : Request → Option ℕ → Action (Option Tenant)
  unfolding tenant_with_id tenant_with_text
  resolve_tenant request kwarg = resolve kwarg request

  abbrev holds_role : Caller → List String → Option Tenant → Db → Bool
  holds_role user roles none db = false
  holds_role user roles (some tenant) db = has_role env (some user) tenant roles db

  abbrev run_if : {A : Type 0} → Bool → Action A → Action A
  run_if true view = view
  run_if false view = raise permission_denied

  -- The decorator around a view.
  unfoldable pub require_role :
      {A : Type 0} → List String → Request → Option ℕ → Action A → Action A
  unfolding resolve_tenant
  require_role roles request kwarg view = do
    tenant ← resolve_tenant request kwarg
    holds ← gets (λ w. holds_role request.user roles tenant w.db)
    run_if holds view

  -- The rest of `HasRolePermission.has_permission`, from the tenant on; an AnonymousUser is no
  -- AbstractBaseUser.
  abbrev decide_role : Caller → List String → Option Tenant → Db → Bool
  decide_role user roles none db = false
  decide_role anonymous roles (some tenant) db = false
  decide_role (signed_in u) roles (some tenant) db =
      has_role env (some (signed_in u)) tenant roles db

  unfoldable pub has_role_permission : Request → Option ℕ → List String → Action Bool
  unfolding resolve_tenant
  has_role_permission request kwarg [] = pure true
  has_role_permission request kwarg (role ∷ roles) = do
    tenant ← resolve_tenant request kwarg
    gets (λ w. decide_role request.user (role ∷ roles) tenant w.db)
