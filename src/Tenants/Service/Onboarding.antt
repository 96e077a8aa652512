-- ===== src/Tenants/Service/Onboarding.antt =====
-- `create_tenant` with the receiver of apps/tenants/apps.py, and then `assign_role` of
-- services/rbac/rbac_service.py.
use godown_rbac_system.Prelude.{
  Bool, ℕ, String, true, false, Option, some, ◌≡◌, refl, map, contains, str_eq,
}
use godown_rbac_system.Models.{User, UserTenantRole}
use godown_rbac_system.World.{World, Env, ok}
use godown_rbac_system.Text.{strip}
use godown_rbac_system.Audit.Service.{id_of}
use godown_rbac_system.Rbac.Queries.{get_role}
use godown_rbac_system.Rbac.Consistent.{IsConsistent}
use godown_rbac_system.Rbac.Writes.{default_roles}
use godown_rbac_system.Rbac.Assign.{assign_role}
use godown_rbac_system.Rbac.Assign.Upsert.{IsUnused}
use godown_rbac_system.Rbac.Assign.Fresh.{IsFresh, IsConsistent-later}
use godown_rbac_system.Rbac.Assign.Correct.{assign_role-get_role}
use godown_rbac_system.Tenants.Service.{validate_slug, create_tenant}
use godown_rbac_system.Tenants.Service.Create.{fresh_tenant, IsFree, create_tenant-IsRegistered}

module _ (env : Env) (distinct_keys : (i j : ℕ) → env.uuid4 i ≡ env.uuid4 j → i ≡ j)
    (lower : String → String) (name schema_name domain : String) (is_primary : Bool) (w : World)
    (u : User) (by : Option User) where
  -- If the receiver of apps/tenants/apps.py is connected, the tables are consistent, and the keys
  -- that uuid4 draws are distinct, in no role and in no membership, then after `create_tenant` with a
  -- valid slug and a host that are free, assigning one of the default roles in the new tenant returns
  -- an assignment with the assigner that was given, and `get_role` then returns that role's slug.
  pub create_tenant-assign_role :
      (slug : String)
      → validate_slug env lower schema_name w ≡ (ok slug, w)
      → str_eq (lower (strip domain)) "" ≡ false
      → IsFree env lower name slug (lower (strip domain)) is_primary w
      → IsConsistent w.db
      → IsFresh env w
      → (role : String) → contains role (map (λ d. d.0) default_roles) ≡ true
      → let t = fresh_tenant env lower name slug (lower (strip domain)) is_primary w in
        let v = (create_tenant env lower true name schema_name domain is_primary w).1 in
        (m : UserTenantRole) × ((assign_role env u t role by v).0 ≡ ok m)
        × (m.assigned_by ≡ id_of by)
        × ((get_role env u t (assign_role env u t role by v).1).0 ≡ ok (some role))
  create_tenant-assign_role slug valid nonempty free good fresh role listed =
      let (at, run) =
        create_tenant-IsRegistered env distinct_keys lower true name schema_name domain is_primary w
          slug valid nonempty free in
      let t = fresh_tenant env lower name slug (lower (strip domain)) is_primary w in
      let v : World = (create_tenant env lower true name schema_name domain is_primary w).1 in
      let unused : IsUnused (env.uuid4 v.ticks) v.db.memberships =
        rw run.grows.memberships (fresh v.ticks run.grows.ticks) in
      assign_role-get_role env u t role by v (IsConsistent-later env w v good run.grows run.ready)
        unused (run.roles refl role listed)
