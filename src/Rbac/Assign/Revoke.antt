-- ===== src/Rbac/Assign/Revoke.antt =====
-- What `revoke_role` promises: it reports whether the user had a role in the tenant, the user has
-- none afterwards, and nobody else's role changes.
use godown_rbac_system.Prelude.{
  String, Bool, true, false, not, List, [], ◌∷◌, none, some, ◌≡◌, refl, ap, ◌∙◌, select, any, arith,
  select_none,
}
use godown_rbac_system.Orm.Laws.{select-delete, select_congr, any-delete, any-eq-false, exists_lem}
use godown_rbac_system.Orm.Distinct.{Distinct-select}
use godown_rbac_system.Orm.Members.{All-select}
use godown_rbac_system.Models.{User, signed_in, Tenant, membership_clash, AuditAction, AuditLog}
use godown_rbac_system.World.{World, Db, Env, ok, proceed}
use godown_rbac_system.Audit.Service.{log}
use godown_rbac_system.Audit.Service.Keeps.{log_keeps}
use godown_rbac_system.Rbac.Queries.{in_tenant, has_role, has_permission, get_role}
use godown_rbac_system.Rbac.Consistent.{IsConsistent, IsScoped}
use godown_rbac_system.Rbac.Checks.{joined, same_checks, membership_of_lem}
use godown_rbac_system.Rbac.Assign.{delete_memberships, log_revoked, revoke_role}
use godown_rbac_system.Rbac.Assign.Upsert.{IsOther, other-in_tenant}

module _ (env : Env) (u : User) (t : Tenant) (w : World) where
  abbrev had_role : Bool
  had_role = any (in_tenant u t) w.db.memberships

  -- The tables after the call.
  pub record IsRevoked (db : Db) : Type 0 where
    pub memberships : db.memberships ≡ select (λ m. not (in_tenant u t m)) w.db.memberships
    pub roles : db.roles ≡ w.db.roles
    pub grants : db.grants ≡ w.db.grants
    pub permissions : db.permissions ≡ w.db.permissions

  IsRevoked-log :
      (db : Db) (rows : List AuditLog) → IsRevoked db → IsRevoked (record db { audit_logs = rows })
  IsRevoked-log db rows h = record {
    memberships = h.memberships;
    roles = h.roles;
    grants = h.grants;
    permissions = h.permissions;
  }

  log_revoked-IsRevoked :
      (b : Bool) (w' : World)
      → IsRevoked w'.db
      → ((log_revoked env u t b w').0 ≡ ok tt) × IsRevoked (log_revoked env u t b w').1.db
  unfolding log
  log_revoked-IsRevoked false w' h = (refl, h)
  log_revoked-IsRevoked true w' h = (
    refl,
    log_keeps env AuditAction.role_revoked none (some t) none "User" (env.show_id u.id)
        (("target_email", u.email) ∷ []) w' IsRevoked IsRevoked-log h,
  )

  deleted :
      ((delete_memberships env (in_tenant u t) w).0 ≡ ok had_role)
      × IsRevoked (delete_memberships env (in_tenant u t) w).1.db
  unfolding delete_memberships
  deleted = (
    ap ok (exists_lem env.memberships (in_tenant u t) w.db.memberships),
    record {
      memberships = env.memberships.delete_lem (in_tenant u t) w.db.memberships;
      roles = refl;
      grants = refl;
      permissions = refl;
    },
  )

  pub revoked : ((revoke_role env u t w).0 ≡ ok had_role) × IsRevoked (revoke_role env u t w).1.db
  unfolding revoke_role
  revoked =
      let (done, end) = deleted in
      let (logged, after) =
        log_revoked-IsRevoked had_role (delete_memberships env (in_tenant u t) w).1 end in
      rw (done, proceed) (rw (logged, proceed) (refl, after))

  no_row_left : any (in_tenant u t) (revoke_role env u t w).1.db.memberships ≡ false
  no_row_left = rw (revoked.1.memberships) (
      any-delete (in_tenant u t) (in_tenant u t) w.db.memberships
      ∙ any-eq-false _ w.db.memberships (λ m. ground arith))

  -- The call returns whether there was a role to revoke, and afterwards `get_role` finds none.
  pub revoke_role-get_role :
      ((revoke_role env u t w).0 ≡ ok had_role)
      × ((get_role env u t (revoke_role env u t w).1).0 ≡ ok none)
  unfolding get_role
  revoke_role-get_role =
      let db' = (revoke_role env u t w).1.db in
      let empty : joined env u t db' ≡ [] =
        rw (select_none (in_tenant u t) db'.memberships no_row_left) refl in
      (revoked.0, rw (membership_of_lem env u t db', empty) refl)

  -- Revoking changes no answer of `has_role` or `has_permission` for another user or another tenant.
  pub revoke_role-others :
      (u' : User) (t' : Tenant)
      → IsOther u t u' t'
      → ((slugs : List String)
          → has_role env (some (signed_in u')) t' slugs (revoke_role env u t w).1.db
            ≡ has_role env (some (signed_in u')) t' slugs w.db)
        × ((code : String)
            → has_permission env (some (signed_in u')) t' code (revoke_role env u t w).1.db
              ≡ has_permission env (some (signed_in u')) t' code w.db)
  revoke_role-others u' t' other =
      same_checks env u' t' w.db _
        (rw (revoked.1.memberships) (
          select-delete (in_tenant u' t') (in_tenant u t) w.db.memberships
          ∙ select_congr _ (in_tenant u' t') w.db.memberships
              (λ m. ground (arith, other-in_tenant u u' t t' other m))))
        revoked.1.roles revoked.1.grants revoked.1.permissions

  -- Revoking keeps consistent tables consistent.
  pub revoke_role-IsConsistent : IsConsistent w.db → IsConsistent (revoke_role env u t w).1.db
  revoke_role-IsConsistent good = record {
    roles = rw (revoked.1.roles) good.roles;
    memberships = rw (revoked.1.memberships) (
        Distinct-select membership_clash (λ m. not (in_tenant u t m)) w.db.memberships
          good.memberships);
    scoped =
        rw (revoked.1.memberships, revoked.1.roles)
          (All-select (IsScoped w.db.roles) (λ m. not (in_tenant u t m)) w.db.memberships
            good.scoped);
  }
