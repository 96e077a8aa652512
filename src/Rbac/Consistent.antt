-- ===== src/Rbac/Consistent.antt =====
-- The invariant of the RBAC tables: their unique constraints, and that every membership names a
-- role of its own tenant.
use godown_rbac_system.Prelude.{
  ℕ, String, Bool, true, ◌&&◌, List, ◌≡◌, ◌==◌, any, All, arith, eq_iff,
}
use godown_rbac_system.Orm.Distinct.{Distinct, IsKey}
use godown_rbac_system.Models.{User, Tenant, Role, UserTenantRole, role_clash, membership_clash}
use godown_rbac_system.World.{Db}
use godown_rbac_system.Rbac.Queries.{in_tenant}
use godown_rbac_system.Rbac.Writes.{has_slug}

-- The role that the membership names, in the membership's tenant.
abbrev pub is_its_role : UserTenantRole → Role → Bool
is_its_role m r = r.id == m.role && r.tenant == m.tenant

abbrev pub IsScoped : List Role → UserTenantRole → Type 0
IsScoped roles m = any (is_its_role m) roles ≡ true

pub record IsConsistent (db : Db) : Type 0 where
  pub roles : Distinct role_clash db.roles
  pub memberships : Distinct membership_clash db.memberships
  pub scoped : All (IsScoped db.roles) db.memberships

pub role_id-IsKey : (k : ℕ) → IsKey role_clash (λ r. r.id == k)
role_id-IsKey k r s p q = ground arith

pub has_slug-IsKey : (t : Tenant) (slug : String) → IsKey role_clash (has_slug t slug)
has_slug-IsKey t slug r s p q =
    ground (arith, eq_iff r.slug slug, eq_iff s.slug slug, eq_iff r.slug s.slug)

pub in_tenant-IsKey : (u : User) (t : Tenant) → IsKey membership_clash (in_tenant u t)
in_tenant-IsKey u t m n p q = ground arith

pub role_clash_comm : (r s : Role) → role_clash r s ≡ role_clash s r
role_clash_comm r s = ground (arith, eq_iff r.slug s.slug, eq_iff s.slug r.slug)

pub membership_clash_comm : (m n : UserTenantRole) → membership_clash m n ≡ membership_clash n m
membership_clash_comm m n = ground arith
