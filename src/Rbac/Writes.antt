-- ===== src/Rbac/Writes.antt =====
-- services/rbac/rbac_service.py, what changes the tables: permissions, roles, assignments. Each
-- save and delete of a Role or a UserTenantRole runs its audit signals.
pub mod Codes
pub mod Insert
pub mod Create
pub mod Growth
pub mod Defaults
use godown_rbac_system.Prelude.{
  ℕ, String, Bool, true, false, not, ◌&&◌, List, [], ◌∷◌, ◌++◌, Option, none, some, map, ◌==◌,
  str_eq, select, contains, nonempty, if◌then◌else◌,
}
use godown_rbac_system.Orm.{get, exists, first}
use godown_rbac_system.Models.{User, Tenant, Permission, Role, UserTenantRole, AuditAction}
use godown_rbac_system.World.{
  World, Db, Env, Action, pure, raise, gets, reads, optional, or_raise, atomic, modify, enqueue,
  draw_uuid, read_clock, conflict, validation, not_found, integrity_error, role_exists,
  unknown_codes, permission_exists, role_not_found, ◌>>=◌, ◌>>◌,
}
use godown_rbac_system.Audit.Signals.{
  audit_pre_save, audit_post_save, audit_post_delete, role_model, membership_model,
}
use godown_rbac_system.Audit.Service.{log}
use godown_rbac_system.Rbac.Queries.{in_tenant}

-- The lookup `tenant=tenant, slug=slug`.
abbrev pub has_slug : Tenant → String → Role → Bool
has_slug tenant slug r = r.tenant == tenant.id && str_eq r.slug slug

-- `DEFAULT_ROLES`
abbrev pub default_roles : List (String × String × ℕ)
default_roles = ("owner", "Owner", 30) ∷ ("admin", "Admin", 20) ∷ ("member", "Member", 10) ∷ []

-- The codes of a request that no permission has.
abbrev pub missing_codes : List String → List Permission → List String
missing_codes codes permissions =
    select (λ c. not (contains c (map (λ p. p.code) permissions))) codes

module _ (env : Env) where
  -- `role.save()` of a new row.
  unfoldable pub insert_role : Role → Action (Unit {0})
  insert_role role = do
    rows ← reads (λ db. or_raise integrity_error (env.roles.create role db.roles))
    modify (λ db. record db { roles = rows })
    context ← gets (λ w. w.context)
    enqueue (audit_post_save (role_model env) context true [] role)

  -- `Role.objects.create(…)`
  unfoldable pub new_role : Tenant → String → String → ℕ → Bool → Action Role
  unfolding insert_role
  new_role tenant name slug weight is_default = do
    id ← draw_uuid env
    created_at ← read_clock env
    let role : Role = record {
      id = id;
      tenant = tenant.id;
      name = name;
      slug = slug;
      is_default = is_default;
      weight = weight;
      created_at = created_at;
    }
    insert_role role
    pure role

  abbrev or_new_role : Tenant → String → String → ℕ → Option Role → Action Role
  or_new_role tenant name slug weight none = new_role tenant name slug weight true
  or_new_role tenant name slug weight (some r) = pure r

  -- `Role.objects.get_or_create(tenant=tenant, slug=slug, defaults=…)`
  unfoldable pub ensure_role : Tenant → String → String → ℕ → Action Role
  unfolding new_role
  ensure_role tenant name slug weight = do
    old ← reads (λ db. optional (get env.roles (has_slug tenant slug) db.roles))
    or_new_role tenant name slug weight old

  -- The loop of `create_default_roles` over slug, name and weight.
  unfoldable pub ensure_roles : Tenant → List (String × String × ℕ) → Action (List Role)
  ensure_roles tenant [] = pure []
  ensure_roles tenant ((slug, name, weight) ∷ rest) = do
    role ← ensure_role tenant name slug weight
    roles ← ensure_roles tenant rest
    pure (role ∷ roles)

  unfoldable pub create_default_roles : Tenant → Action (List Role)
  create_default_roles tenant = ensure_roles tenant default_roles

  -- `role.delete()`: the cascade takes the memberships and the granted permissions with it.
  unfoldable pub delete_role : Role → Action (Unit {0})
  delete_role role = do
    doomed ← gets (λ w. env.memberships.filter (λ m. m.role == role.id) w.db.memberships)
    context ← gets (λ w. w.context)
    modify (λ db. record db {
      memberships = env.memberships.delete (λ m. m.role == role.id) db.memberships;
      grants = env.set_permissions role.id [] db.grants;
      roles = env.roles.delete (λ r. r.id == role.id) db.roles;
    })
    enqueue (map (audit_post_delete (membership_model env) context) doomed)
    enqueue (audit_post_delete (role_model env) context role ∷ [])

  -- `Permission.objects.filter(code__in=permission_codes)`
  abbrev pub with_codes : List String → Db → List Permission
  with_codes codes db = env.permissions.filter (λ p. contains p.code codes) db.permissions

  abbrev grant_or_undo : Role → List Permission → List String → Action (Unit {0})
  grant_or_undo role permissions [] = modify (λ db. record db {
    grants = env.set_permissions role.id (map (λ p. p.id) permissions) db.grants;
  })
  grant_or_undo role permissions (c ∷ cs) =
      delete_role role >> raise (validation (unknown_codes (c ∷ cs)))

  -- The block under `if permission_codes:`.
  unfoldable pub grant_codes : Role → Option (List String) → Action (Unit {0})
  unfolding delete_role
  grant_codes role none = pure tt
  grant_codes role (some []) = pure tt
  grant_codes role (some (c ∷ cs)) = do
    permissions ← gets (λ w. with_codes (c ∷ cs) w.db)
    grant_or_undo role permissions (missing_codes (c ∷ cs) permissions)

  unfoldable pub create_role : Tenant → String → String → ℕ → Option (List String) → Action Role
  create_role tenant name slug weight codes w =
      if exists env.roles (has_slug tenant slug) w.db.roles
      then raise (conflict (role_exists slug tenant.name)) w
      else (do role ← new_role tenant name slug weight false; grant_codes role codes; pure role) w

  -- `Permission.objects.create(…)`
  unfoldable pub new_permission : String → String → Action Permission
  new_permission code description = do
    id ← draw_uuid env
    created_at ← read_clock env
    let permission : Permission = record {
      id = id;
      code = code;
      description = description;
      created_at = created_at;
    }
    rows ← reads (λ db. or_raise integrity_error (env.permissions.create permission db.permissions))
    modify (λ db. record db { permissions = rows })
    pure permission

  unfoldable pub create_permission : String → String → Action Permission
  unfolding new_permission
  create_permission code description w =
      if exists env.permissions (λ p. str_eq p.code code) w.db.permissions
      then raise (conflict (permission_exists code)) w
      else new_permission code description w

  abbrev pub or_new_permission : String → String → Option Permission → Action Permission
  or_new_permission code description none = new_permission code description
  or_new_permission code description (some p) = pure p

  unfoldable pub get_or_create_permission : String → String → Action Permission
  unfolding new_permission
  get_or_create_permission code description = do
    old ← reads (λ db. optional (get env.permissions (λ p. str_eq p.code code) db.permissions))
    or_new_permission code description old
