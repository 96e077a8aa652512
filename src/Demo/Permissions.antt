-- ===== src/Demo/Permissions.antt =====
-- services/demo/seed_service.py: the demo permissions, and what the default roles get of them.
use godown_rbac_system.Prelude.{String, List, [], ◌∷◌, Option, none, some, map}
use godown_rbac_system.Models.{Permission, Role}
use godown_rbac_system.World.{Env, Action, pure, modify, ◌>>=◌, ◌>>◌}
use godown_rbac_system.Dict.{lookup, put}
use godown_rbac_system.Rbac.Writes.{get_or_create_permission}

abbrev pub permissions_data : List (String × String)
permissions_data =
    ("user:invite", "Invite a new user to the tenant")
    ∷ ("po:create", "Create a Purchase Order")
    ∷ ("po:approve", "Approve a Purchase Order")
    ∷ ("grn:create", "Create a Goods Received Note")
    ∷ ("audit:view", "View the tenant audit logs")
    ∷ ("feature:toggle", "Toggle tenant feature flags")
    ∷ []

abbrev pub role_permissions_mapping : List (String × List String)
role_permissions_mapping =
    (
      "owner",
      "user:invite" ∷ "po:create" ∷ "po:approve" ∷ "grn:create" ∷ "audit:view" ∷ "feature:toggle"
          ∷ [],
    )
    ∷ ("admin", "user:invite" ∷ "po:create" ∷ "grn:create" ∷ "audit:view" ∷ [])
    ∷ ("member", "po:create" ∷ "grn:create" ∷ [])
    ∷ []

-- `d.get(k, [])`
abbrev pub codes_or_empty : Option (List String) → List String
codes_or_empty none = []
codes_or_empty (some codes) = codes

abbrev if_known : Option Permission → List Permission → List Permission
if_known none rest = rest
if_known (some p) rest = p ∷ rest

-- `[permissions[code] for code in allowed_codes if code in permissions]`
unfoldable pub known : List (String × Permission) → List String → List Permission
known permissions [] = []
known permissions (code ∷ codes) = if_known (lookup code permissions) (known permissions codes)

-- The permissions of a role, by its slug.
abbrev pub role_perms : List (String × Permission) → Role → List Permission
role_perms permissions role =
    known permissions (codes_or_empty (lookup role.slug role_permissions_mapping))

module _ (env : Env) where
  -- The loop of `_ensure_permissions`, from a dictionary on.
  unfoldable pub put_permissions :
      List (String × Permission) → List (String × String) → Action (List (String × Permission))
  put_permissions perms [] = pure perms
  put_permissions perms ((code, desc) ∷ rest) = do
    perm ← get_or_create_permission env code desc
    put_permissions (put code perm perms) rest

  unfoldable pub ensure_permissions : Action (List (String × Permission))
  ensure_permissions = put_permissions [] permissions_data

  -- The loop over the roles of a tenant: `role.permissions.set(role_perms)`.
  unfoldable pub map_permissions : List (String × Permission) → List Role → Action (Unit {0})
  map_permissions permissions [] = pure tt
  map_permissions permissions (role ∷ roles) = do
    modify (λ db. record db {
      grants =
          env.set_permissions role.id (map (λ p. p.id) (role_perms permissions role)) db.grants;
    })
    map_permissions permissions roles
