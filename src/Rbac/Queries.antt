-- ===== src/Rbac/Queries.antt =====
-- services/rbac/rbac_service.py, the queries: `get_role`, `get_role_object`, `has_role`,
-- `has_permission`, `get_user_permissions` and `get_user_auth_context`.
use godown_rbac_system.Prelude.{
  ℕ, String, Bool, true, false, ◌&&◌, List, [], ◌∷◌, ◌++◌, Option, none, some, map, ◌==◌, str_eq,
  select, any, contains,
}
use godown_rbac_system.Orm.{Got, one, exists}
use godown_rbac_system.Models.{User, Caller, anonymous, signed_in, Tenant, Role, UserTenantRole}
use godown_rbac_system.World.{Db, Env, Action, pure, gets, reads, optional, granted, ◌>>=◌}

-- The inner join of `.select_related("role")`.
abbrev pub with_role : List Role → List UserTenantRole → List (UserTenantRole × Role)
with_role roles [] = []
with_role roles (m ∷ ms) =
    map (λ r. (m, r)) (select (λ r. r.id == m.role) roles) ++ with_role roles ms

-- The lookup `user_id=user.pk, tenant=tenant`.
abbrev pub in_tenant : User → Tenant → UserTenantRole → Bool
in_tenant user tenant m = m.user == user.id && m.tenant == tenant.id

-- The joins behind `role__slug__in=roles` and `role__permissions__code=code`.
abbrev pub role_slug_in : Db → List String → UserTenantRole → Bool
role_slug_in db slugs m = any (λ r. r.id == m.role && contains r.slug slugs) db.roles

abbrev pub grants_code : Db → ℕ → String → Bool
grants_code db role code =
    any
      (λ g. g.role == role && any (λ p. p.id == g.permission && str_eq p.code code) db.permissions)
      db.grants

abbrev pub role_grants : Db → String → UserTenantRole → Bool
role_grants db code m = any (λ r. r.id == m.role && grants_code db r.id code) db.roles

-- The role's part of the auth context.
pub record RoleInfo : Type 0 where
  pub id : String
  pub name : String
  pub slug : String
  pub weight : ℕ

pub record AuthContext : Type 0 where
  pub role : Option RoleInfo
  pub permissions : List String

module _ (env : Env) where
  -- `UserTenantRole.objects.select_related("role").get(user_id=user.pk, tenant=tenant)`
  abbrev pub membership_of : User → Tenant → Db → Got (UserTenantRole × Role)
  membership_of user tenant db =
      one (with_role db.roles (env.memberships.filter (in_tenant user tenant) db.memberships))

  -- `role.permissions.values_list("code", flat=True)`
  abbrev pub codes_of : Db → Role → List String
  codes_of db role =
      map (λ p. p.code)
        (env.permissions.filter (λ p. granted role.id p.id db.grants) db.permissions)

  abbrev slug_of : Option (UserTenantRole × Role) → Option String
  slug_of none = none
  slug_of (some (m, r)) = some r.slug

  unfoldable pub get_role : User → Tenant → Action (Option String)
  get_role user tenant = do
    row ← reads (λ db. optional (membership_of user tenant db))
    pure (slug_of row)

  abbrev role_of : Option (UserTenantRole × Role) → Option Role
  role_of none = none
  role_of (some (m, r)) = some r

  unfoldable pub get_role_object : User → Tenant → Action (Option Role)
  get_role_object user tenant = do
    row ← reads (λ db. optional (membership_of user tenant db))
    pure (role_of row)

  -- `None` and AnonymousUser are refused, superusers pass.
  unfoldable pub has_role : Option Caller → Tenant → List String → Db → Bool
  has_role none tenant roles db = false
  has_role (some anonymous) tenant roles db = false
  has_role (some (signed_in user)) tenant roles db = elim user.is_superuser [
    | true ↦ true
    | false ↦
        exists env.memberships (λ m. in_tenant user tenant m && role_slug_in db roles m)
          db.memberships
  ]

  unfoldable pub has_permission : Option Caller → Tenant → String → Db → Bool
  has_permission none tenant code db = false
  has_permission (some anonymous) tenant code db = false
  has_permission (some (signed_in user)) tenant code db = elim user.is_superuser [
    | true ↦ true
    | false ↦
        exists env.memberships (λ m. in_tenant user tenant m && role_grants db code m)
          db.memberships
  ]

  abbrev codes_or_none : Db → Option (UserTenantRole × Role) → List String
  codes_or_none db none = []
  codes_or_none db (some (m, r)) = codes_of db r

  unfoldable pub get_user_permissions : User → Tenant → Action (List String)
  get_user_permissions user tenant = do
    row ← reads (λ db. optional (membership_of user tenant db))
    gets (λ w. codes_or_none w.db row)

  abbrev auth_context : Db → Option (UserTenantRole × Role) → AuthContext
  auth_context db none = record { role = none; permissions = [] }
  auth_context db (some (m, r)) = record {
    role = some (record { id = env.show_id r.id; name = r.name; slug = r.slug; weight = r.weight });
    permissions = codes_of db r;
  }

  unfoldable pub get_user_auth_context : User → Tenant → Action AuthContext
  get_user_auth_context user tenant = do
    row ← reads (λ db. optional (membership_of user tenant db))
    gets (λ w. auth_context w.db row)
