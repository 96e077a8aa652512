-- ===== src/Features/Views/Denied.antt =====
-- The views that change roles, assignments and flags, called by someone who is neither owner nor admin of the tenant of the URL.
use godown_rbac_system.Prelude.{ℕ, false, [], ◌∷◌, Option, ◌≡◌}
use godown_rbac_system.Orm.Distinct.{Distinct}
use godown_rbac_system.Models.{tenant_clash}
use godown_rbac_system.World.{World, Env}
use godown_rbac_system.Http.{Request, failure}
use godown_rbac_system.Common.Errors.{respond}
use godown_rbac_system.Rbac.Views.{
  RoleCreate, RoleAssign, admins, post_role, post_assign, post_revoke,
}
use godown_rbac_system.Rbac.Views.Refusals.{
  post_role_denied, post_assign_denied, post_revoke_denied,
}
use godown_rbac_system.Rbac.Views.Guards.{may, view_refused, refused_with}
use godown_rbac_system.Features.Views.{Toggle, post_toggle}

-- In a database whose tenants have distinct keys, a toggle by someone who is neither owner nor admin
-- of the tenant of the URL is answered with 401 or 403, and changes nothing.
post_toggle_denied :
    (env : Env) (request : Request) (id : ℕ) (w : World) (body : Toggle)
    → Distinct tenant_clash w.db.tenants
    → may env request id admins w.db ≡ false
    → respond (post_toggle env request id body) w ≡ (failure (refused_with request.user), w)
unfolding post_toggle
post_toggle_denied env request id w body d denied =
    view_refused env request id w d "owner" ("admin" ∷ []) _ denied

-- In a database whose tenants have distinct keys, a POST by someone who is neither owner nor admin of
-- the tenant of the URL is answered with 401 or 403 and changes nothing, be it for a new role,
-- although its permission class lets members through, to assign a role, to revoke one, or to toggle a
-- feature.
pub posts_denied :
    (env : Env) (request : Request) (id : ℕ) (w : World)
    → Distinct tenant_clash w.db.tenants
    → may env request id admins w.db ≡ false
    → ((body : Option RoleCreate)
        → respond (post_role env request id body) w ≡ (failure (refused_with request.user), w))
      × ((body : Option RoleAssign)
          → respond (post_assign env request id body) w ≡ (failure (refused_with request.user), w))
      × ((body : Option ℕ)
          → respond (post_revoke env request id body) w ≡ (failure (refused_with request.user), w))
      × ((body : Toggle)
          → respond (post_toggle env request id body) w ≡ (failure (refused_with request.user), w))
posts_denied env request id w d denied = (
  post_role_denied env request id w d denied,
  post_assign_denied env request id w d denied,
  post_revoke_denied env request id w d denied,
  (λ body. post_toggle_denied env request id w body d denied),
)
