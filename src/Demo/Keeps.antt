-- ===== src/Demo/Keeps.antt =====
-- The operations of Demo.antt, in terms of Demo/Steps.antt.
use godown_rbac_system.Prelude.{
  ℕ, Bool, String, true, false, List, [], ◌∷◌, Option, none, some, ◌≡◌, refl, str_eq, ◌==◌, map,
}
use godown_rbac_system.Models.{User, Tenant, Domain, Permission, Role}
use godown_rbac_system.World.{World, Env}
use godown_rbac_system.Rbac.Writes.{get_or_create_permission, new_permission, or_new_permission}
use godown_rbac_system.Rbac.Writes.Growth.{Grows-trans}
use godown_rbac_system.Tenants.Receivers.{
  create_tenant_default_roles, create_tenant_default_roles-IsReceived,
}
use godown_rbac_system.Tenants.Service.{new_domain}
use godown_rbac_system.Dict.{put}
use godown_rbac_system.Users.Registration.{UserApi}
use godown_rbac_system.Demo.Steps.{
  Any, IsHit, Keeps, Keeps-pure, Keeps-bind, Keeps-reads, Keeps-get, Keeps-modify, Keeps-draw,
  Keeps-clock, Keeps-write,
}
use godown_rbac_system.Demo.Config.{DemoTenantSpec, demo_admin}
use godown_rbac_system.Demo.Permissions.{role_perms, put_permissions, map_permissions}
use godown_rbac_system.Demo.Seed.{
  with_spec, set_primary, is_domain, new_demo_tenant, set_or_new_tenant, upsert_tenant,
  set_or_new_domain, upsert_domain, or_new_admin, as_admin, save_admin, ensure_admin_user,
}

-- The tenant has the slug of the spec.
abbrev pub IsFrom : DemoTenantSpec → Tenant → Type 0
IsFrom spec t = t.slug ≡ spec.slug

abbrev pub IsDemoAdmin : User → Type 0
IsDemoAdmin u = str_eq u.username demo_admin.username ≡ true

module _ (env : Env) (start : World) where
  -- The row is written, or refused.
  new_permission-Keeps : (code desc : String) → Keeps env start Any (new_permission env code desc)
  unfolding new_permission
  new_permission-Keeps code desc = Keeps-bind env start _ _ (Keeps-draw env start) (λ id _.
      Keeps-bind env start _ _ (Keeps-clock env start) (λ now _.
        let row : Permission = record {
          id = id;
          code = code;
          description = desc;
          created_at = now;
        } in
        Keeps-write env start (λ db. env.permissions.create row db.permissions)
          (λ rows db. record db { permissions = rows }) _ (λ rows db. refl) (λ rows db. refl)
          (Keeps-pure env start Any row tt)))

  or_new_permission-Keeps :
      (code desc : String) (old : Option Permission)
      → Keeps env start Any (or_new_permission env code desc old)
  or_new_permission-Keeps code desc none = new_permission-Keeps code desc
  or_new_permission-Keeps code desc (some p) = Keeps-pure env start Any p tt

  pub put_permissions-Keeps :
      (perms : List (String × Permission)) (defined : List (String × String))
      → Keeps env start Any (put_permissions env perms defined)
  unfolding put_permissions get_or_create_permission
  put_permissions-Keeps perms [] = Keeps-pure env start Any perms tt
  put_permissions-Keeps perms ((code, desc) ∷ rest) =
      Keeps-bind env start (get_or_create_permission env code desc) _
        (Keeps-bind env start _ _
          (Keeps-reads env start _
            (λ db. Keeps-get env start env.permissions (λ p. str_eq p.code code) db.permissions))
          (λ old _. or_new_permission-Keeps code desc old))
        (λ p _. put_permissions-Keeps (put code p perms) rest)

  module _ (distinct_keys : (i j : ℕ) → env.uuid4 i ≡ env.uuid4 j → i ≡ j) (connected : Bool) where
    receiver-Keeps :
        (t : Tenant) → Keeps env start Any (create_tenant_default_roles env connected t)
    receiver-Keeps t = record {
      keeps = λ w h.
          let (v, run, r) =
            create_tenant_default_roles-IsReceived env connected distinct_keys t w h.ready in
          rw run (record { ready = r.ready; grows = Grows-trans start w v h.grows r.grows });
      ends = λ w h.
          let (v, run, r) =
            create_tenant_default_roles-IsReceived env connected distinct_keys t w h.ready in
          rw run tt;
    }

    new_tenant-Keeps :
        (spec : DemoTenantSpec) → Keeps env start (IsFrom spec) (new_demo_tenant env connected spec)
    new_tenant-Keeps spec = Keeps-bind env start _ _ (Keeps-clock env start) (λ created _.
        Keeps-bind env start _ _ (Keeps-clock env start) (λ updated _.
          let row : Tenant = record {
            id = spec.id;
            name = spec.name;
            slug = spec.slug;
            schema_name = spec.slug;
            is_active = true;
            created_at = created;
            updated_at = updated;
          } in
          Keeps-write env start (λ db. env.tenants.create row db.tenants)
            (λ rows db. record db { tenants = rows }) _ (λ rows db. refl) (λ rows db. refl)
            (Keeps-bind env start _ _ (receiver-Keeps row)
              (λ _ _. Keeps-pure env start (IsFrom spec) row refl))))

    set_or_new_tenant-Keeps :
        (spec : DemoTenantSpec) (old : Option Tenant)
        → Keeps env start (IsFrom spec) (set_or_new_tenant env connected spec old)
    set_or_new_tenant-Keeps spec none = new_tenant-Keeps spec
    set_or_new_tenant-Keeps spec (some old) =
        Keeps-bind env start _ _ (Keeps-clock env start) (λ now _.
          Keeps-write env start
            (λ db. env.tenants.update_unique (λ t. t.id == old.id) (with_spec spec now) db.tenants)
            (λ rows db. record db { tenants = rows }) _ (λ rows db. refl) (λ rows db. refl)
            (Keeps-pure env start (IsFrom spec) (with_spec spec now old) refl))

    pub upsert_tenant-Keeps :
        (spec : DemoTenantSpec) → Keeps env start (IsFrom spec) (upsert_tenant env connected spec)
    unfolding upsert_tenant
    upsert_tenant-Keeps spec =
        Keeps-bind env start _ _
          (Keeps-reads env start _
            (λ db. Keeps-get env start env.tenants (λ t. t.id == spec.id) db.tenants))
          (λ old _. set_or_new_tenant-Keeps spec old)

  pub map_permissions-Keeps :
      (perms : List (String × Permission)) (roles : List Role)
      → Keeps env start Any (map_permissions env perms roles)
  unfolding map_permissions
  map_permissions-Keeps perms [] = Keeps-pure env start Any tt tt
  map_permissions-Keeps perms (role ∷ roles) =
      Keeps-bind env start _ _
        (Keeps-modify env start
          (λ db. record db {
            grants =
                env.set_permissions role.id (map (λ p. p.id) (role_perms perms role)) db.grants;
          })
          (λ db. refl) (λ db. refl))
        (λ _ _. map_permissions-Keeps perms roles)

  module _ (api : UserApi) where
    set_or_new_domain-Keeps :
        (t : Tenant) (host : String) (old : Option Domain)
        → Keeps env start Any (set_or_new_domain env api t host old)
    unfolding new_domain
    set_or_new_domain-Keeps t host none = Keeps-bind env start _ _ (Keeps-draw env start) (λ id _.
        let row : Domain = record { id = id; tenant = t.id; domain = host; is_primary = true } in
        Keeps-write env start (λ db. env.domains.create row db.domains)
          (λ rows db. record db { domains = rows }) _ (λ rows db. refl) (λ rows db. refl)
          (Keeps-pure env start Any row tt))
    set_or_new_domain-Keeps t host (some old) =
        Keeps-bind env start _ _
          (Keeps-modify env start
            (λ db. record db {
              domains = env.domains.update (λ d. d.id == old.id) set_primary db.domains;
            })
            (λ db. refl) (λ db. refl))
          (λ _ _. Keeps-pure env start Any (set_primary old) tt)

    pub upsert_domain-Keeps :
        (t : Tenant) (host : String) → Keeps env start Any (upsert_domain env api t host)
    unfolding upsert_domain
    upsert_domain-Keeps t host =
        Keeps-bind env start _ _
          (Keeps-reads env start _
            (λ db. Keeps-get env start env.domains (is_domain t host) db.domains))
          (λ old _. set_or_new_domain-Keeps t host old)

    or_new_admin-Keeps :
        (old : Option User)
        → IsHit (λ u. str_eq u.username demo_admin.username) old
        → Keeps env start IsDemoAdmin (or_new_admin env api old)
    or_new_admin-Keeps (some u) hit = Keeps-pure env start IsDemoAdmin u hit
    or_new_admin-Keeps none hit = Keeps-bind env start _ _ (Keeps-draw env start) (λ id _.
        let row : User = record {
          id = id;
          username = demo_admin.username;
          email = demo_admin.email;
          first_name = demo_admin.first_name;
          last_name = demo_admin.last_name;
          password = "";
          is_active = true;
          is_superuser = false;
        } in
        Keeps-write env start (λ db. env.users.create row db.users)
          (λ rows db. record db { users = rows }) _ (λ rows db. refl) (λ rows db. refl)
          (Keeps-pure env start IsDemoAdmin row refl))

    save_admin-Keeps :
        (u : User) → IsDemoAdmin u → Keeps env start IsDemoAdmin (save_admin env api u)
    save_admin-Keeps u own =
        Keeps-write env start (λ db. env.users.update_unique (λ v. v.id == u.id) (λ v. u) db.users)
          (λ rows db. record db { users = rows }) _ (λ rows db. refl) (λ rows db. refl)
          (Keeps-pure env start IsDemoAdmin u own)

    pub ensure_admin_user-Keeps : Keeps env start IsDemoAdmin (ensure_admin_user env api)
    unfolding ensure_admin_user
    ensure_admin_user-Keeps =
        Keeps-bind env start _ _
          (Keeps-reads env start _ (λ db.
            Keeps-get env start env.users (λ u. str_eq u.username demo_admin.username) db.users))
          (λ old hit. Keeps-bind env start _ _ (or_new_admin-Keeps old hit) (λ u own.
            Keeps-bind env start _ _ (Keeps-clock env start)
              (λ salt _. save_admin-Keeps (as_admin env api salt u) own)))
