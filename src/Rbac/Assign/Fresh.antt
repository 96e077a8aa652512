-- ===== src/Rbac/Assign/Fresh.antt =====
-- Where a later assignment may start: the tables stay consistent while roles are added.
use godown_rbac_system.Prelude.{ℕ, ◌≤◌}
use godown_rbac_system.Orm.Members.{All-map}
use godown_rbac_system.World.{World, Env}
use godown_rbac_system.Rbac.Consistent.{IsConsistent, IsScoped, is_its_role}
use godown_rbac_system.Rbac.Writes.Defaults.{IsReady}
use godown_rbac_system.Rbac.Writes.Growth.{Grows}
use godown_rbac_system.Rbac.Assign.Upsert.{IsUnused}

-- The keys still to be drawn are in no membership.
abbrev pub IsFresh : Env → World → Type 0
IsFresh env w = (k : ℕ) → w.ticks ≤ k → IsUnused (env.uuid4 k) w.db.memberships

pub IsConsistent-later :
    (env : Env) (w v : World) → IsConsistent w.db → Grows w v → IsReady env v → IsConsistent v.db
IsConsistent-later env w v good grows ready = record {
  roles = ready.distinct;
  memberships = rw grows.memberships good.memberships;
  scoped = rw grows.memberships (
      All-map (IsScoped w.db.roles) (IsScoped v.db.roles) w.db.memberships
        (λ m h. grows.more (is_its_role m) h) good.scoped);
}
