-- ===== src/Rbac/Assign/Correct.antt =====
-- What `assign_role` promises: the user then has the role, nobody else's role changes, a slug
-- that the tenant lacks is refused, and the tables keep their constraints.
use godown_rbac_system.Prelude.{
  String, true, false, ◌&&◌, List, [], ◌∷◌, Option, none, some, ◌≡◌, refl, sym, ap, inl, inr, ◌==◌,
  select, any, select_none, eq_iff, and-true, ==_iff, ==_refl, Bool-cases,
}
use godown_rbac_system.Orm.Laws.{select_hit, any_of_select-nil}
use godown_rbac_system.Orm.Distinct.{select_key, select_self}
use godown_rbac_system.Orm.Members.{any_hit}
use godown_rbac_system.Models.{
  User, signed_in, Tenant, Role, UserTenantRole, role_clash, AuditAction, AuditLog,
}
use godown_rbac_system.World.{
  World, Db, Env, ok, err, proceed, rolled_back, not_found, role_not_found,
}
use godown_rbac_system.Audit.Service.{id_of, log}
use godown_rbac_system.Audit.Service.Keeps.{log_keeps}
use godown_rbac_system.Rbac.Queries.{has_role, has_permission, get_role}
use godown_rbac_system.Rbac.Writes.{has_slug}
use godown_rbac_system.Rbac.Consistent.{IsConsistent, has_slug-IsKey, role_id-IsKey}
use godown_rbac_system.Rbac.Checks.{joined, same_checks, membership_of_lem}
use godown_rbac_system.Rbac.Assign.{upsert_membership, give_role, available, assign_role}
use godown_rbac_system.Rbac.Assign.Upsert.{IsUnused, IsOther}
use godown_rbac_system.Rbac.Assign.Run.{IsAssigned, upserted_ok}

module _ (env : Env) (u : User) (t : Tenant) (slug : String) (by : Option User) (w : World)
    (good : IsConsistent w.db) (unused : IsUnused (env.uuid4 w.ticks) w.db.memberships) where
  -- What an assignment that succeeds leaves.
  abbrev pub Assigned : Type 0
  Assigned =
      (role : Role) × (select (has_slug t slug) w.db.roles ≡ role ∷ [])
      × (m : UserTenantRole) × ((assign_role env u t slug by w).0 ≡ ok m)
      × IsAssigned u t role by m w.db (assign_role env u t slug by w).1.db

  IsAssigned-log :
      (role : Role) (m : UserTenantRole) (db : Db) (rows : List AuditLog)
      → IsAssigned u t role by m w.db db
      → IsAssigned u t role by m w.db (record db { audit_logs = rows })
  IsAssigned-log role m db rows h = record {
    upserted = h.upserted;
    scoped = h.scoped;
    role_id = h.role_id;
    assigned_by = h.assigned_by;
    roles = h.roles;
    grants = h.grants;
    permissions = h.permissions;
  }

  abbrev Given : Role → Type 0
  Given role =
      (m : UserTenantRole) × ((give_role env u t slug by (some role) w).0 ≡ ok m)
      × IsAssigned u t role by m w.db (give_role env u t slug by (some role) w).1.db

  give_upserted :
      (role : Role) (m : UserTenantRole)
      → (upsert_membership env u t role by w).0 ≡ ok m
      → IsAssigned u t role by m w.db (upsert_membership env u t role by w).1.db
      → Given role
  unfolding give_role log
  give_upserted role m done end =
      rw (done, proceed)
        (
          m,
          refl,
          log_keeps env AuditAction.role_assigned none (some t) by "User" (env.show_id u.id)
              (("role", slug) ∷ ("target_email", u.email) ∷ [])
              (upsert_membership env u t role by w).1 (IsAssigned u t role by m w.db)
              (IsAssigned-log role m) end,
        )

  given : (role : Role) → select (has_slug t slug) w.db.roles ≡ role ∷ [] → Given role
  given role listed =
      let hit = select_hit (has_slug t slug) w.db.roles role [] listed in
      let (own, named) = and-true _ _ hit in
      let own_tenant = (==_iff role.tenant t.id).0 own in
      let known =
        any_hit (has_slug t slug) (λ r. r.id == role.id && r.tenant == t.id) w.db.roles role []
          listed (rw (==_refl role.id) own) in
      let (m, done, end) = upserted_ok env u t role by w good unused own_tenant known in
      give_upserted role m done end

  assigned_from :
      (role : Role) (listed : select (has_slug t slug) w.db.roles ≡ role ∷ [])
      → Given role
      → Assigned
  unfolding assign_role
  assigned_from role listed (m, done, end) =
      rw (env.roles.filter_lem (has_slug t slug) w.db.roles, listed, done, rolled_back)
        (role, refl, m, refl, end)

  -- A slug of the tenant is assigned.
  pub assigned : any (has_slug t slug) w.db.roles ≡ true → Assigned
  assigned known =
      elim (select_key role_clash (has_slug t slug) w.db.roles (has_slug-IsKey t slug) good.roles) [
        | inl none_listed ↦
            let absent = any_of_select-nil (has_slug t slug) w.db.roles none_listed in cc
        | inr (role, listed) ↦ assigned_from role listed (given role listed)
      ]

  -- A slug that the tenant has no role for is refused, and nothing changes.
  pub assign_role_missing :
      any (has_slug t slug) w.db.roles ≡ false
      → assign_role env u t slug by w
        ≡ (err (not_found (role_not_found slug t.name (available env t w.db))), w)
  unfolding assign_role give_role
  assign_role_missing absent =
      rw
        (
          env.roles.filter_lem (has_slug t slug) w.db.roles,
          select_none (has_slug t slug) w.db.roles absent,
        )
        refl

module _ (env : Env) (u : User) (t : Tenant) (slug : String) (by : Option User) (w : World)
    (good : IsConsistent w.db) (unused : IsUnused (env.uuid4 w.ticks) w.db.memberships) where
  -- In consistent tables, and with a new key that is unused, an assignment, refused or not, keeps
  -- the tables consistent.
  pub assign_role-IsConsistent : IsConsistent (assign_role env u t slug by w).1.db
  assign_role-IsConsistent = elim (Bool-cases (any (has_slug t slug) w.db.roles)) [
    | inr absent ↦ rw (assign_role_missing env u t slug by w good unused absent) good
    | inl known ↦
        let (role, listed, m, done, end) = assigned env u t slug by w good unused known in
        record {
          roles = rw end.roles good.roles;
          memberships = end.upserted.distinct;
          scoped = rw end.roles end.scoped;
        }
  ]

  assigned-get_role :
      Assigned env u t slug by w good unused
      → (get_role env u t (assign_role env u t slug by w).1).0 ≡ ok (some slug)
  unfolding get_role
  assigned-get_role (role, listed, m, done, end) =
      let db' = (assign_role env u t slug by w).1.db in
      let (own, named) = and-true _ _ (select_hit (has_slug t slug) w.db.roles role [] listed) in
      let by_id : select (λ r. r.id == m.role) w.db.roles ≡ role ∷ [] =
        select_self role_clash (has_slug t slug) (λ r. r.id == m.role) w.db.roles role
          (role_id-IsKey m.role) ((==_iff role.id m.role).1 (sym end.role_id)) good.roles listed in
      let row : joined env u t db' ≡ (m, role) ∷ [] =
        rw (end.upserted.row, end.roles, by_id) refl in
      rw (membership_of_lem env u t db', row)
        (ap (λ s. ok (some s)) ((eq_iff role.slug slug).0 named))

  -- In consistent tables, and with a new key that is unused, assigning a role that the tenant has
  -- returns an assignment with the assigner that was given, and `get_role` then returns that role's
  -- slug.
  pub assign_role-get_role :
      any (has_slug t slug) w.db.roles ≡ true
      → (m : UserTenantRole) × ((assign_role env u t slug by w).0 ≡ ok m)
        × (m.assigned_by ≡ id_of by)
        × ((get_role env u t (assign_role env u t slug by w).1).0 ≡ ok (some slug))
  assign_role-get_role known =
      let a = assigned env u t slug by w good unused known in
      (a.2, a.3, a.4.assigned_by, assigned-get_role a)

  -- In consistent tables, and with a new key that is unused, an assignment, refused or not, changes
  -- no answer of `has_role` or `has_permission` for another user or another tenant.
  pub assign_role-others :
      (u' : User) (t' : Tenant)
      → IsOther u t u' t'
      → ((slugs : List String)
          → has_role env (some (signed_in u')) t' slugs (assign_role env u t slug by w).1.db
            ≡ has_role env (some (signed_in u')) t' slugs w.db)
        × ((code : String)
            → has_permission env (some (signed_in u')) t' code (assign_role env u t slug by w).1.db
              ≡ has_permission env (some (signed_in u')) t' code w.db)
  assign_role-others u' t' other = elim (Bool-cases (any (has_slug t slug) w.db.roles)) [
    | inr absent ↦
        rw (assign_role_missing env u t slug by w good unused absent)
          ((λ slugs. refl), (λ code. refl))
    | inl known ↦
        let (role, listed, m, done, end) = assigned env u t slug by w good unused known in
        same_checks env u' t' w.db _ (end.upserted.others u' t' other) end.roles end.grants
          end.permissions
  ]
