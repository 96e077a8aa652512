-- ===== src/Demo/Ensured.antt =====
-- One turn of `_ensure_tenants`, and the loop.
use Prim.Native.String as Text
use godown_rbac_system.Prelude.{refl, ℕ, Bool, String, true, List, [], ◌∷◌, ◌≡◌, any, All}
use godown_rbac_system.Models.{Tenant, Permission, Role}
use godown_rbac_system.World.{World, Env, pure, proceed, ◌>>=◌}
use godown_rbac_system.Rbac.Writes.{has_slug, create_default_roles, default_roles}
use godown_rbac_system.Rbac.Writes.Defaults.{IsReady, AllHeld, any_of_AllHeld, all_ensured}
use godown_rbac_system.Rbac.Writes.Growth.{Grows, Grows-refl}
use godown_rbac_system.Users.Registration.{UserApi}
use godown_rbac_system.Demo.Steps.{IsUnder, Any}
use godown_rbac_system.Demo.Granted.{IsMapped, map_permissions_ok, map_permissions-IsMapped}
use godown_rbac_system.Demo.Runs.{Holds, Ran, Ran-bind, Ran-pure, Ran-Keeps}
use godown_rbac_system.Demo.Keeps.{
  IsFrom, upsert_tenant-Keeps, map_permissions-Keeps, upsert_domain-Keeps,
}
use godown_rbac_system.Demo.Config.{DemoTenantSpec}
use godown_rbac_system.Demo.Permissions.{role_permissions_mapping, map_permissions}
use godown_rbac_system.Demo.Seed.{upsert_tenant, upsert_domain, ensure_tenant, ensure_tenants}

-- The tenant has a role with the slug "admin".
abbrev pub HasAdmin : World → Tenant → Type 0
HasAdmin w t = any (has_slug t "admin") w.db.roles ≡ true

-- The tenants have the slugs of the specs, and each has a role with the slug "admin".
abbrev pub AllFrom : List DemoTenantSpec → List Tenant → World → Type 0
AllFrom [] [] w = Unit
AllFrom [] (t ∷ ts) w = ⊥
AllFrom (spec ∷ specs) [] w = ⊥
AllFrom (spec ∷ specs) (t ∷ ts) w = (IsFrom spec t × HasAdmin w t) × AllFrom specs ts w

pub AllFrom-later :
    (specs : List DemoTenantSpec) (ts : List Tenant) (w v : World)
    → Grows w v
    → AllFrom specs ts w
    → AllFrom specs ts v
AllFrom-later [] [] w v g h = tt
AllFrom-later [] (t ∷ ts) w v g h = h
AllFrom-later (spec ∷ specs) [] w v g h = h
AllFrom-later (spec ∷ specs) (t ∷ ts) w v g h =
    ((h.0.0, g.more (has_slug t "admin") h.0.1), AllFrom-later specs ts w v g h.1)

-- The tenant has the slug of the spec and a role for admins, and its default roles have the
-- permissions that the mapping names.
abbrev pub IsEnsured : List (String × Permission) → DemoTenantSpec → Tenant → World → Type 0
IsEnsured perms spec t w =
    IsFrom spec t × HasAdmin w t × All (IsMapped perms t w.db) role_permissions_mapping

module _ (env : Env) (distinct_keys : (i j : ℕ) → env.uuid4 i ≡ env.uuid4 j → i ≡ j) where
  Ran-default_roles :
      (t : Tenant) (w : World)
      → IsReady env w
      → Ran env w
          (λ rs v. AllHeld env t distinct_keys v default_roles rs)
          (create_default_roles env t w)
  unfolding create_default_roles
  Ran-default_roles t w ready =
      let (rs, w', e, held, ready', kept, grows, hosts) =
        all_ensured env t distinct_keys default_roles w ready in
      rw e (record { ready = ready'; grows = grows; holds = held })

  mapped :
      (perms : List (String × Permission)) (spec : DemoTenantSpec) (t : Tenant) (rs : List Role)
      (w : World)
      → IsReady env w
      → IsFrom spec t
      → AllHeld env t distinct_keys w default_roles rs
      → Ran env w (IsEnsured perms spec) ((map_permissions env perms rs >>= λ _. pure t) w)
  mapped perms spec t rs w ready from held =
      let start : IsUnder env w w = record { ready = ready; grows = Grows-refl w } in
      let h = (map_permissions-Keeps env w perms rs).keeps w start in
      rw (map_permissions_ok env perms rs w, proceed)
        (record {
          ready = h.ready;
          grows = h.grows;
          holds = (
            from,
            h.grows.more (has_slug t "admin")
                (any_of_AllHeld env t distinct_keys default_roles rs w "admin" held refl),
            map_permissions-IsMapped env distinct_keys perms t w ready.distinct rs held,
          );
        })

  module _ (connected : Bool) where
    Ran-tenant :
        (api : UserApi) (perms : List (String × Permission)) (spec : DemoTenantSpec) (w : World)
        → IsReady env w
        → Ran env w (IsEnsured perms spec) (ensure_tenant env api connected perms spec w)
    unfolding ensure_tenant
    Ran-tenant api perms spec w ready =
        let host = Text.◌++◌ spec.slug ".localhost" in
        let Q = IsEnsured perms spec in
        Ran-bind env w (λ t v. IsFrom spec t) Q _ _
          (Ran-Keeps env (IsFrom spec) (upsert_tenant env connected spec) w
            (upsert_tenant-Keeps env w distinct_keys connected spec) ready)
          (λ t v ready' _ from.
            Ran-bind env v (λ d _. Any d) Q _ _
              (Ran-Keeps env Any (upsert_domain env api t host) v
                (upsert_domain-Keeps env v api t host) ready')
              (λ d u ready2 _ _.
                Ran-bind env u (λ rs x. AllHeld env t distinct_keys x default_roles rs) Q _ _
                  (Ran-default_roles t u ready2)
                  (λ rs x ready3 _ held. mapped perms spec t rs x ready3 from held)))

    pub Ran-tenants :
        (api : UserApi) (perms : List (String × Permission)) (specs : List DemoTenantSpec)
        (w : World)
        → IsReady env w
        → Ran env w (AllFrom specs) (ensure_tenants env api connected perms specs w)
    unfolding ensure_tenants
    Ran-tenants api perms [] w ready = Ran-pure env w (AllFrom []) [] ready tt
    Ran-tenants api perms (spec ∷ specs) w ready =
        Ran-bind env w (IsEnsured perms spec) (AllFrom (spec ∷ specs)) _ _
          (Ran-tenant api perms spec w ready)
          (λ t v ready' _ ensured.
            Ran-bind env v (AllFrom specs) (AllFrom (spec ∷ specs)) _ _
              (Ran-tenants api perms specs v ready')
              (λ ts u ready2 grows rest.
                Ran-pure env u (AllFrom (spec ∷ specs)) (t ∷ ts) ready2
                  ((ensured.0, grows.more (has_slug t "admin") ensured.1), rest)))

    -- Be the receiver of apps/tenants/apps.py connected or not: if the keys that uuid4 draws are
    -- distinct and in no role, and roles do not clash, one turn of `_ensure_tenants` either
    -- raises IntegrityError or MultipleObjectsReturned, or returns a tenant with the slug of the
    -- spec that has the three default roles, each with the permissions that the dictionary has
    -- under the codes of the role's slug, and with no others.
    pub ensure_tenant-IsEnsured :
        (api : UserApi) (perms : List (String × Permission)) (spec : DemoTenantSpec) (w : World)
        → IsReady env w
        → Holds (IsEnsured perms spec) (ensure_tenant env api connected perms spec w)
    ensure_tenant-IsEnsured api perms spec w ready = (Ran-tenant api perms spec w ready).holds
