-- ===== src/Tests/Seeds.antt =====
-- The theorems on the demo data, at tables that have no demo tenant yet.
use godown_rbac_system.Prelude.{Bool, true, false, [], ◌∷◌, ◌≡◌, refl, arith}
use godown_rbac_system.World.{Result, ok, err}
use godown_rbac_system.Audit.Service.{log}
use godown_rbac_system.Rbac.Writes.{
  ensure_role, ensure_roles, create_default_roles, get_or_create_permission,
}
use godown_rbac_system.Rbac.Assign.{give_role, upsert_membership, assign_role}
use godown_rbac_system.Tenants.Receivers.{create_tenant_default_roles}
use godown_rbac_system.Demo.Permissions.{put_permissions}
use godown_rbac_system.Rbac.Assign.Fresh.{IsFresh}
use godown_rbac_system.Demo.Config.{DemoTenantSpec}
use godown_rbac_system.Demo.Seed.{Seeding, seed, ensure_tenant}
use godown_rbac_system.Demo.Runs.{Holds}
use godown_rbac_system.Demo.Ensured.{IsEnsured, ensure_tenant-IsEnsured}
use godown_rbac_system.Demo.Seeded.{SeedOutcome, seed-IsSeeded}
use godown_rbac_system.Tests.Environment.{test_env, test_world, reading}
use godown_rbac_system.Tests.Registrations.{test_api}
use godown_rbac_system.Tests.Roles.{test_db-IsConsistent, test_world-IsReady, apart_keys}

abbrev unseeded : Seeding
unseeded = record { world = test_world; active = false }

pub test_world-IsFresh : IsFresh test_env test_world
test_world-IsFresh k h = ground arith

abbrev returned : {A : Type 0} → Result A → Bool
returned (ok a) = true
returned (err e) = false

-- Nothing is refused here.
seeded : returned (seed test_env test_api true unseeded).0 ≡ true
unfolding seed ensure_tenant create_default_roles get_or_create_permission assign_role
    put_permissions ensure_roles ensure_role give_role upsert_membership log
    create_tenant_default_roles
seeded = refl

seed-IsSeeded_example : SeedOutcome test_env unseeded (seed test_env test_api true unseeded)
seed-IsSeeded_example =
    seed-IsSeeded test_env apart_keys true test_api unseeded test_db-IsConsistent test_world-IsReady
      test_world-IsFresh

abbrev third : DemoTenantSpec
third = record { id = 3; name = "Three"; slug = "three" }

ensure_tenant-IsEnsured_example :
    Holds
      (IsEnsured (("po:create", reading) ∷ []) third)
      (ensure_tenant test_env test_api true (("po:create", reading) ∷ []) third test_world)
ensure_tenant-IsEnsured_example =
    ensure_tenant-IsEnsured test_env apart_keys true test_api (("po:create", reading) ∷ []) third
      test_world test_world-IsReady
