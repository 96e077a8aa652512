-- ===== src/Tenants/Receivers.antt =====
-- apps/tenants/apps.py: the receiver that gives a new tenant its default roles.
use godown_rbac_system.Prelude.{ℕ, String, Bool, true, false, ◌≡◌, refl, map, any, contains}
use godown_rbac_system.Models.{Tenant}
use godown_rbac_system.World.{World, Env, Action, ok, pure, ◌>>◌}
use godown_rbac_system.Rbac.Writes.{has_slug, create_default_roles, default_roles}
use godown_rbac_system.Rbac.Writes.Defaults.{IsReady, all_ensured, any_of_AllHeld}
use godown_rbac_system.Rbac.Writes.Growth.{Grows, Grows-refl, SameHosts, SameHosts-refl}

-- `connected`: is the receiver there when the row is saved? `ready` connects it, but Django holds a
-- receiver by a weak reference, and this one is a local function of `ready`.
module _ (env : Env) (connected : Bool) where
  abbrev received : Bool → Tenant → Action (Unit {0})
  received false tenant = pure tt
  received true tenant = create_default_roles env tenant >> pure tt

  -- What `post_save` does after the INSERT of a tenant.
  unfoldable pub create_tenant_default_roles : Tenant → Action (Unit {0})
  create_tenant_default_roles tenant = received connected tenant

  module _ (distinct_keys : (i j : ℕ) → env.uuid4 i ≡ env.uuid4 j → i ≡ j) (t : Tenant) where
    -- How the receiver ends: it returns, and if it is connected, the default slugs have roles.
    pub record IsReceived (v v' : World) : Type 0 where
      pub ready : IsReady env v'
      pub grows : Grows v v'
      pub hosts : SameHosts v v'
      pub absent : connected ≡ false → v' ≡ v
      pub roles :
          connected ≡ true
          → (slug : String) → contains slug (map (λ d. d.0) default_roles) ≡ true
          → any (has_slug t slug) v'.db.roles ≡ true

    receives :
        (b : Bool)
        → connected ≡ b
        → (v : World) → IsReady env v
        → (v' : World) × (received b t v ≡ (ok tt, v')) × IsReceived v v'
    unfolding create_default_roles
    receives false e v ready = (
      v,
      refl,
      record {
        ready = ready;
        grows = Grows-refl v;
        hosts = SameHosts-refl v;
        absent = λ h. refl;
        roles = λ h slug listed. cc;
      },
    )
    receives true e v ready =
        let (rs, v', run, held, ready', kept, grows, hosts) =
          all_ensured env t distinct_keys default_roles v ready in
        (
          v',
          rw run refl,
          record {
            ready = ready';
            grows = grows;
            hosts = hosts;
            absent = λ h. cc;
            roles = λ h slug listed.
                any_of_AllHeld env t distinct_keys default_roles rs v' slug held listed;
          },
        )

    pub create_tenant_default_roles-IsReceived :
        (v : World)
        → IsReady env v
        → (v' : World) × (create_tenant_default_roles t v ≡ (ok tt, v')) × IsReceived v v'
    unfolding create_tenant_default_roles
    create_tenant_default_roles-IsReceived v ready = receives connected refl v ready
