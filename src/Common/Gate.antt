-- ===== src/Common/Gate.antt =====
-- apps/common/permissions.py: `IsTenantAuthorized`, and how DRF applies permission classes.
pub mod Laws
use godown_rbac_system.Prelude.{
  String, Bool, true, false, ◌&&◌, List, [], ◌∷◌, Option, none, some, str_eq, if◌then◌else◌,
}
use godown_rbac_system.Models.{Caller, anonymous, signed_in, Tenant}
use godown_rbac_system.World.{
  Db, Env, Action, pure, raise, not_authenticated, permission_denied, ◌>>=◌, ◌>>◌,
}
use godown_rbac_system.Http.{Request}
use godown_rbac_system.Rbac.Queries.{has_permission}
use godown_rbac_system.Features.{is_feature_active}

-- `if required:` of an optional attribute of the view.
abbrev pub required : Option String → (String → Bool) → Bool
required none check = true
required (some s) check = if str_eq s "" then true else check s

module _ (env : Env) where
  abbrev gate : Caller → Option Tenant → Option String → Option String → Db → Bool
  gate user none feature permission db = false
  gate user (some t) feature permission db =
      required feature (λ name. is_feature_active env (some t) name db)
      && required permission (λ code. has_permission env (some user) t code db)

  -- `IsTenantAuthorized.has_permission`
  unfoldable pub is_tenant_authorized : Request → Option String → Option String → Db → Bool
  is_tenant_authorized request feature permission db =
      gate request.user request.tenant feature permission db

-- `IsAuthenticated`
abbrev pub is_authenticated : Caller → Action Bool
is_authenticated anonymous = pure false
is_authenticated (signed_in u) = pure true

-- DRF's answer to a permission class that said no.
abbrev pub denied : Caller → Action (Unit {0})
denied anonymous = raise not_authenticated
denied (signed_in u) = raise permission_denied

abbrev pub allow : Caller → Bool → Action (Unit {0})
allow user true = pure tt
allow user false = denied user

-- `permission_classes`, in order; the handler runs if all say yes.
unfoldable pub check_permissions : Caller → List (Action Bool) → Action (Unit {0})
check_permissions user [] = pure tt
check_permissions user (check ∷ checks) = do
  passed ← check
  allow user passed
  check_permissions user checks
