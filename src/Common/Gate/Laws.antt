-- ===== src/Common/Gate/Laws.antt =====
-- `IsTenantAuthorized` decides as the lists that the front end is given by `get_me` say.
use godown_rbac_system.Prelude.{
  ◌≤◌, String, Bool, ◌&&◌, ◌||◌, Option, none, some, ◌≡◌, refl, length, select, contains,
}
use godown_rbac_system.Orm.Distinct.{Distinct}
use godown_rbac_system.Models.{User, signed_in, Tenant, flag_clash}
use godown_rbac_system.World.{World, Env}
use godown_rbac_system.Http.{Request}
use godown_rbac_system.Rbac.Queries.{has_permission, get_user_permissions}
use godown_rbac_system.Rbac.Consistent.{IsConsistent}
use godown_rbac_system.Rbac.Checks.{code_listed, has_permission-get_user_permissions}
use godown_rbac_system.Features.{is_flag, is_feature_active, get_active_features}
use godown_rbac_system.Features.Laws.{is_feature_active-get_active_features}
use godown_rbac_system.Common.Gate.{required, is_tenant_authorized}

module _ (env : Env) (request : Request) (u : User) (t : Tenant) (w : World) where
  required_congr :
      (o : Option String) (f g : String → Bool)
      → ((s : String) → f s ≡ g s)
      → required o f ≡ required o g
  required_congr none f g h = refl
  required_congr (some s) f g h = rw (h s) refl

  -- In consistent tables whose flags are distinct, and no two global flags of one name, the
  -- permission class admits a signed-in user to a tenant's view exactly if the feature that the
  -- view requires, if any, is among the tenant's active features, and the code that it requires,
  -- if any, is among the user's permissions there or the user is a superuser.
  pub is_tenant_authorized-lists :
      (feature permission : Option String)
      → request.user ≡ signed_in u
      → request.tenant ≡ some t
      → IsConsistent w.db
      → Distinct flag_clash w.db.flags
      → ((name : String) → length (select (is_flag none name) w.db.flags) ≤ 1)
      → is_tenant_authorized env request feature permission w.db ≡ (
          required feature (λ name. contains name (get_active_features env (some t) w.db))
          && required permission
              (λ code. u.is_superuser || code_listed code (get_user_permissions env u t w).0))
  unfolding is_tenant_authorized
  is_tenant_authorized-lists feature permission user tenant good flags once =
      rw
        (
          user,
          tenant,
          required_congr feature (λ name. is_feature_active env (some t) name w.db) _
              (λ name.
                is_feature_active-get_active_features env name w.db (some t) flags (once name)),
          required_congr permission (λ code. has_permission env (some (signed_in u)) t code w.db) _
              (λ code. has_permission-get_user_permissions env u t w good code),
        )
        refl
