-- ===== src/Demo/Seed.antt =====
-- services/demo/seed_service.py: the demo tenants, the demo admin, and `seed`. `connected` is that
-- of Tenants/Receivers.antt.
use Prim.Native.String as Text
use godown_rbac_system.Prelude.{
  ℕ, String, Bool, true, false, ◌&&◌, List, [], ◌∷◌, Option, none, some, ◌==◌, str_eq, select,
  head?,
}
use godown_rbac_system.Orm.{get}
use godown_rbac_system.Models.{User, Tenant, Domain, Permission}
use godown_rbac_system.World.{
  World, Env, Result, Action, pure, raise, reads, optional, or_raise, atomic, modify, draw_uuid,
  read_clock, integrity_error, stop_iteration, ◌>>=◌, ◌>>◌,
}
use godown_rbac_system.Rbac.Writes.{create_default_roles}
use godown_rbac_system.Rbac.Assign.{assign_role}
use godown_rbac_system.Tenants.Receivers.{create_tenant_default_roles}
use godown_rbac_system.Tenants.Service.{new_domain}
use godown_rbac_system.Users.Registration.{UserApi}
use godown_rbac_system.Demo.Config.{DemoTenantSpec, demo_tenants, demo_admin}
use godown_rbac_system.Demo.Permissions.{ensure_permissions, map_permissions}

pub record DemoSeedResult : Type 0 where
  pub tenants : List Tenant
  pub admin_user : User

-- The columns that `update_or_create` writes, and `updated_at`, which is `auto_now`.
abbrev pub with_spec : DemoTenantSpec → ℕ → Tenant → Tenant
with_spec spec now t = record t {
  name = spec.name;
  slug = spec.slug;
  schema_name = spec.slug;
  updated_at = now;
}

abbrev pub set_primary : Domain → Domain
set_primary d = record d { is_primary = true }

-- The lookup `tenant=tenant, domain=…`.
abbrev pub is_domain : Tenant → String → Domain → Bool
is_domain tenant host d = d.tenant == tenant.id && str_eq d.domain host

-- `_seeding`, next to the rest of the state.
pub record Seeding : Type 0 where
  pub world : World
  pub active : Bool

abbrev set_seeding : Bool → Seeding → Seeding
set_seeding b s = record s { active = b }

module _ {A : Type 0} where
  abbrev lifted : Action A → Seeding → Result A × Seeding
  lifted m s = ((m s.world).0, record s { world = (m s.world).1 })

  abbrev finally : Result A × Seeding → Result A × Seeding
  finally (r, s) = (r, set_seeding false s)

  -- `_seeding.active = True` and `try: … finally: _seeding.active = False`
  abbrev pub flagged : Action A → Seeding → Result A × Seeding
  flagged m s = finally (lifted m (set_seeding true s))

module _ (env : Env) where
  abbrev pub save_demo_tenant : DemoTenantSpec → Tenant → Action Tenant
  save_demo_tenant spec old = do
    now ← read_clock env
    rows ← reads (λ db.
        or_raise integrity_error
          (env.tenants.update_unique (λ t. t.id == old.id) (with_spec spec now) db.tenants))
    modify (λ db. record db { tenants = rows })
    pure (with_spec spec now old)

  module _ (connected : Bool) where
    -- `Tenant.objects.create(…)` with the key of the spec
    abbrev pub new_demo_tenant : DemoTenantSpec → Action Tenant
    new_demo_tenant spec = do
      created_at ← read_clock env
      updated_at ← read_clock env
      let tenant : Tenant = record {
        id = spec.id;
        name = spec.name;
        slug = spec.slug;
        schema_name = spec.slug;
        is_active = true;
        created_at = created_at;
        updated_at = updated_at;
      }
      rows ← reads (λ db. or_raise integrity_error (env.tenants.create tenant db.tenants))
      modify (λ db. record db { tenants = rows })
      create_tenant_default_roles env connected tenant
      pure tenant

    abbrev pub set_or_new_tenant : DemoTenantSpec → Option Tenant → Action Tenant
    set_or_new_tenant spec none = new_demo_tenant spec
    set_or_new_tenant spec (some old) = save_demo_tenant spec old

    -- `Tenant.objects.update_or_create(id=spec.id, defaults=…)`
    unfoldable pub upsert_tenant : DemoTenantSpec → Action Tenant
    upsert_tenant spec = do
      old ← reads (λ db. optional (get env.tenants (λ t. t.id == spec.id) db.tenants))
      set_or_new_tenant spec old

module _ (env : Env) (api : UserApi) where
  abbrev pub set_or_new_domain : Tenant → String → Option Domain → Action Domain
  set_or_new_domain tenant host none = new_domain env api.lower tenant host true
  set_or_new_domain tenant host (some old) = do
    modify (λ db. record db {
      domains = env.domains.update (λ d. d.id == old.id) set_primary db.domains;
    })
    pure (set_primary old)

  -- `Domain.objects.update_or_create(tenant=tenant, domain=…, defaults={"is_primary": True})`
  unfoldable pub upsert_domain : Tenant → String → Action Domain
  unfolding new_domain
  upsert_domain tenant host = do
    old ← reads (λ db. optional (get env.domains (is_domain tenant host) db.domains))
    set_or_new_domain tenant host old

  module _ (connected : Bool) where
    -- One turn of `_ensure_tenants`.
    unfoldable pub ensure_tenant : List (String × Permission) → DemoTenantSpec → Action Tenant
    unfolding upsert_tenant upsert_domain map_permissions
    ensure_tenant permissions spec = do
      tenant ← upsert_tenant env connected spec
      domain ← upsert_domain tenant (Text.◌++◌ spec.slug ".localhost")
      roles ← create_default_roles env tenant
      map_permissions env permissions roles
      pure tenant

    unfoldable pub ensure_tenants :
        List (String × Permission) → List DemoTenantSpec → Action (List Tenant)
    ensure_tenants permissions [] = pure []
    ensure_tenants permissions (spec ∷ specs) = do
      tenant ← ensure_tenant permissions spec
      tenants ← ensure_tenants permissions specs
      pure (tenant ∷ tenants)

  -- `User.objects.create(…)` with the defaults, without a password
  abbrev pub new_admin : Action User
  new_admin = do
    id ← draw_uuid env
    let user : User = record {
      id = id;
      username = demo_admin.username;
      email = demo_admin.email;
      first_name = demo_admin.first_name;
      last_name = demo_admin.last_name;
      password = "";
      is_active = true;
      is_superuser = false;
    }
    rows ← reads (λ db. or_raise integrity_error (env.users.create user db.users))
    modify (λ db. record db { users = rows })
    pure user

  abbrev pub or_new_admin : Option User → Action User
  or_new_admin none = new_admin
  or_new_admin (some u) = pure u

  -- The attributes that are set, and the columns that `user.save()` writes.
  abbrev pub as_admin : ℕ → User → User
  as_admin salt u = record u {
    email = demo_admin.email;
    first_name = demo_admin.first_name;
    last_name = demo_admin.last_name;
    password = api.make_password salt demo_admin.password;
  }

  abbrev pub save_admin : User → Action User
  save_admin u = do
    rows ← reads (λ db.
        or_raise integrity_error (env.users.update_unique (λ v. v.id == u.id) (λ v. u) db.users))
    modify (λ db. record db { users = rows })
    pure u

  unfoldable pub ensure_admin_user : Action User
  ensure_admin_user = do
    old ←
        reads (λ db. optional (get env.users (λ u. str_eq u.username demo_admin.username) db.users))
    user ← or_new_admin old
    salt ← read_clock env
    save_admin (as_admin salt user)

  -- `next(…)` of a generator
  abbrev pub or_stop : Option Tenant → Action Tenant
  or_stop none = raise stop_iteration
  or_stop (some t) = pure t

  abbrev pub with_tenant_slug : String → List Tenant → Option Tenant
  with_tenant_slug slug tenants = head? (select (λ t. str_eq t.slug slug) tenants)

  module _ (connected : Bool) where
    -- The block under `try`, before `atomic` restores anything.
    unfoldable pub seed_all : Action DemoSeedResult
    unfolding ensure_permissions ensure_tenants ensure_admin_user assign_role
    seed_all = do
      permissions ← ensure_permissions env
      tenants ← ensure_tenants connected permissions demo_tenants
      admin_user ← ensure_admin_user
      tenant1 ← or_stop (with_tenant_slug "tenant1" tenants)
      assign_role env admin_user tenant1 "admin" none
      pure (record { tenants = tenants; admin_user = admin_user })

    -- `atomic` stands outside of `try`, and does not touch the flag.
    unfoldable pub seed : Seeding → Result DemoSeedResult × Seeding
    unfolding seed_all
    seed = flagged (atomic seed_all)
