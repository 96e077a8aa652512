-- ===== src/Demo/Seeded.antt =====
-- What `seed` comes to: it either raises, and no table has changed, or the demo admin has the role
-- of an admin in the first demo tenant.
use godown_rbac_system.Prelude.{
  ℕ, Bool, true, false, List, [], ◌∷◌, none, some, ◌≡◌, ◌⊎◌, refl, inl, inr, str_eq, map, select,
  head?, eq_iff,
}
use godown_rbac_system.Models.{User, Tenant}
use godown_rbac_system.World.{World, Env, Result, Exc, ok, err, pure, proceed, rolled_back, ◌>>=◌}
use godown_rbac_system.Rbac.Queries.{get_role}
use godown_rbac_system.Rbac.Consistent.{IsConsistent}
use godown_rbac_system.Rbac.Writes.Defaults.{IsReady}
use godown_rbac_system.Rbac.Writes.Growth.{Grows, Grows-trans}
use godown_rbac_system.Rbac.Assign.{assign_role}
use godown_rbac_system.Rbac.Assign.Fresh.{IsFresh, IsConsistent-later}
use godown_rbac_system.Rbac.Assign.Correct.{assign_role-get_role}
use godown_rbac_system.Users.Registration.{UserApi}
use godown_rbac_system.Demo.Steps.{IsDbError, Any}
use godown_rbac_system.Demo.Runs.{Holds, Holds-bind, Ran-Keeps}
use godown_rbac_system.Demo.Keeps.{IsDemoAdmin, put_permissions-Keeps, ensure_admin_user-Keeps}
use godown_rbac_system.Demo.Ensured.{AllFrom, AllFrom-later, Ran-tenants}
use godown_rbac_system.Demo.Config.{demo_tenants, demo_admin}
use godown_rbac_system.Demo.Permissions.{permissions_data, ensure_permissions}
use godown_rbac_system.Demo.Seed.{
  DemoSeedResult, Seeding, ensure_admin_user, or_stop, with_tenant_slug, seed_all, seed,
}

-- The demo tenants are there, and the demo admin has the role of an admin in the first of them.
pub record IsSeeded (env : Env) (result : DemoSeedResult) (w : World) : Type 0 where
  pub slugs : map (λ t. t.slug) result.tenants ≡ "tenant1" ∷ "tenant2" ∷ []
  pub username : result.admin_user.username ≡ demo_admin.username
  pub tenant1 : Tenant
  pub first : head? (select (λ t. str_eq t.slug "tenant1") result.tenants) ≡ some tenant1
  pub role : (get_role env result.admin_user tenant1 w).0 ≡ ok (some "admin")

-- It raised because the database refused, and no table changed; or it is seeded. In both cases the
-- flag is down.
abbrev pub SeedOutcome : Env → Seeding → Result DemoSeedResult × Seeding → Type 0
SeedOutcome env s end =
    (end.1.active ≡ false)
    × (((e : Exc) × IsDbError e × (end.0 ≡ err e) × (end.1.world.db ≡ s.world.db))
        ⊎ ((result : DemoSeedResult) × (end.0 ≡ ok result) × IsSeeded env result end.1.world))

module _ (env : Env) (distinct_keys : (i j : ℕ) → env.uuid4 i ≡ env.uuid4 j → i ≡ j)
    (connected : Bool) where
  module _ (api : UserApi) (w : World) (good : IsConsistent w.db) (fresh : IsFresh env w) where
    given :
        (u : User) (t1 t2 : Tenant) (v : World)
        → IsReady env v
        → Grows w v
        → AllFrom demo_tenants (t1 ∷ t2 ∷ []) v
        → IsDemoAdmin u
        → Holds (IsSeeded env) (
            (assign_role env u t1 "admin" none >>= λ _.
            pure (record { tenants = t1 ∷ t2 ∷ []; admin_user = u }))
              v)
    given u t1 t2 v ready grows all own =
        let (m, done, by, has) =
          assign_role-get_role env u t1 "admin" none v (IsConsistent-later env w v good grows ready)
            (rw grows.memberships (fresh v.ticks grows.ticks)) all.0.1 in
        rw (done, proceed)
          (record {
            slugs = rw (all.0.0, all.1.0.0) refl;
            username = (eq_iff u.username demo_admin.username).0 own;
            tenant1 = t1;
            first = rw (all.0.0) refl;
            role = has;
          })

    last :
        (u : User) (ts : List Tenant) (v : World)
        → IsReady env v
        → Grows w v
        → AllFrom demo_tenants ts v
        → IsDemoAdmin u
        → Holds (IsSeeded env) (
            (or_stop env api (with_tenant_slug env api "tenant1" ts) >>= λ tenant1.
            assign_role env u tenant1 "admin" none >>= λ _.
            pure (record { tenants = ts; admin_user = u }))
              v)
    last u [] v ready grows all own = elim all [ ]
    last u (t1 ∷ []) v ready grows all own = elim all.1 [ ]
    last u (t1 ∷ t2 ∷ t3 ∷ ts) v ready grows all own = elim all.1.1 [ ]
    last u (t1 ∷ t2 ∷ []) v ready grows all own =
        let hit : str_eq t1.slug "tenant1" ≡ true = rw (all.0.0) refl in
        rw hit (given u t1 t2 v ready grows all own)

    all_seeded : IsReady env w → Holds (IsSeeded env) (seed_all env api connected w)
    unfolding seed_all ensure_permissions
    all_seeded ready =
        Holds-bind env w (λ p _. Any p) (IsSeeded env) _ _
          (Ran-Keeps env Any (ensure_permissions env) w
            (put_permissions-Keeps env w [] permissions_data) ready)
          (λ perms v1 ready1 grows1 _.
            Holds-bind env v1 (AllFrom demo_tenants) (IsSeeded env) _ _
              (Ran-tenants env distinct_keys connected api perms demo_tenants v1 ready1)
              (λ ts v2 ready2 grows2 all.
                Holds-bind env v2 (λ u _. IsDemoAdmin u) (IsSeeded env) _ _
                  (Ran-Keeps env IsDemoAdmin (ensure_admin_user env api) v2
                    (ensure_admin_user-Keeps env v2 api) ready2)
                  (λ u v ready' grows own.
                    last u ts v ready'
                      (Grows-trans w v1 v grows1 (Grows-trans v1 v2 v grows2 grows))
                      (AllFrom-later demo_tenants ts v2 v grows all) own)))

    restored :
        (active : Bool) (end : Result DemoSeedResult × World)
        → Holds (IsSeeded env) end
        → SeedOutcome env
            (record { world = w; active = active })
            ((rolled_back w end).0, record { world = (rolled_back w end).1; active = false })
    restored active (ok result, v) h = (refl, inr (result, refl, h))
    restored active (err e, v) h = (refl, inl (e, h, refl, refl))

  -- Be the receiver of apps/tenants/apps.py connected or not: in consistent tables, if the keys
  -- that uuid4 draws are distinct, in no role and in no membership, `seed` either raises
  -- IntegrityError or MultipleObjectsReturned and changes no table, or returns tenants with the
  -- slugs tenant1 and tenant2 and the user with the demo admin's name, to whom `get_role` then
  -- gives the role admin in the first of them; in both cases the flag is down.
  pub seed-IsSeeded :
      (api : UserApi) (s : Seeding)
      → IsConsistent s.world.db
      → IsReady env s.world
      → IsFresh env s.world
      → SeedOutcome env s (seed env api connected s)
  unfolding seed
  seed-IsSeeded api s good ready fresh =
      restored api s.world good fresh s.active (seed_all env api connected s.world)
        (all_seeded api s.world good fresh ready)
