-- ===== src/Features/Views.antt =====
-- apps/tenants/views.py: the feature list of a tenant and the toggle.
pub mod Denied
use godown_rbac_system.Prelude.{
  ℕ, String, Bool, false, List, [], ◌∷◌, Option, none, some, str_eq, if◌then◌else◌,
}
use godown_rbac_system.Models.{Tenant, FeatureFlag}
use godown_rbac_system.World.{Env, Action, pure, gets, ◌>>=◌, ◌>>◌}
use godown_rbac_system.Http.{Request, Response, success, failure}
use godown_rbac_system.Common.Gate.{check_permissions, is_authenticated}
use godown_rbac_system.Rbac.Views.{tenant_or_404, admit, admins}
use godown_rbac_system.Features.{get_active_features, set_feature}

-- `request.data`: its `name`, and its `is_active`, which is False if it is left out.
pub record Toggle : Type 0 where
  pub name : Option String
  pub is_active : Option Bool

abbrev or_false : Option Bool → Bool
or_false none = false
or_false (some b) = b

module _ (env : Env) where
  -- `TenantFeatureListView.get`
  unfoldable pub list_features : Request → ℕ → Action (Response (List String))
  unfolding check_permissions
  list_features request tenant_id = do
    check_permissions request.user (is_authenticated request.user ∷ [])
    tenant ← tenant_or_404 env tenant_id
    gets (λ w. success 200 (get_active_features env (some tenant) w.db))

  abbrev toggle : Tenant → Option String → Bool → Action (Response FeatureFlag)
  toggle tenant none is_active = pure (failure 400)
  toggle tenant (some name) is_active =
      if str_eq name ""
      then pure (failure 400)
      else do flag ← set_feature env (some tenant) name is_active; pure (success 200 flag)

  -- `ToggleTenantFeatureView.post`
  unfoldable pub post_toggle : Request → ℕ → Toggle → Action (Response FeatureFlag)
  unfolding admit
  post_toggle request tenant_id body = do
    admit env request tenant_id admins
    tenant ← tenant_or_404 env tenant_id
    toggle tenant body.name (or_false body.is_active)
