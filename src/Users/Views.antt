-- ===== src/Users/Views.antt =====
-- apps/users/views.py: `UserListView`, before filters, search and pagination.
pub mod Scope
use godown_rbac_system.Prelude.{ℕ, Bool, ◌&&◌, List, [], ◌∷◌, Option, none, some, ◌==◌, any}
use godown_rbac_system.Models.{User, Tenant}
use godown_rbac_system.World.{Db, Env, Action, pure, gets, ◌>>=◌, ◌>>◌}
use godown_rbac_system.Http.{Request, Response, success}
use godown_rbac_system.Common.Gate.{check_permissions, is_authenticated}
use godown_rbac_system.Rbac.Gate.{has_role_permission}
use godown_rbac_system.Rbac.Views.{admins}

module _ (env : Env) where
  abbrev members : Option Tenant → Db → List User
  members none db = []
  members (some t) db =
      env.users.filter (λ u. any (λ m. m.user == u.id && m.tenant == t.id) db.memberships) db.users

  -- `get_queryset`
  unfoldable pub queried_users : Request → Db → List User
  queried_users request db = members request.tenant db

  -- `UserListView.get`
  unfoldable pub list_users : Request → Action (Response (List User))
  unfolding check_permissions queried_users
  list_users request = do
    check_permissions request.user
        (is_authenticated request.user ∷ has_role_permission env request none admins ∷ [])
    gets (λ w. success 200 (queried_users request w.db))
