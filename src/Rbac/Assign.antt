-- ===== src/Rbac/Assign.antt =====
-- services/rbac/rbac_service.py, `assign_role` and `revoke_role`: the role that a user has in a
-- tenant. Both write to the audit log through `AuditService.log`.
pub mod Upsert
pub mod Run
pub mod Correct
pub mod Revoke
pub mod Fresh
use godown_rbac_system.Prelude.{
  ℕ, String, Bool, true, false, ◌&&◌, List, [], ◌∷◌, ◌++◌, Option, none, some, map, ◌==◌, str_eq,
  nonempty, if◌then◌else◌,
}
use godown_rbac_system.Orm.{get, first}
use godown_rbac_system.Models.{User, Tenant, Role, UserTenantRole, AuditAction}
use godown_rbac_system.World.{
  World, Db, Env, Action, pure, raise, gets, reads, optional, or_raise, atomic, modify, enqueue,
  draw_uuid, read_clock, not_found, integrity_error, role_not_found, ◌>>=◌, ◌>>◌,
}
use godown_rbac_system.Audit.Signals.{
  audit_pre_save, audit_post_save, audit_post_delete, membership_model,
}
use godown_rbac_system.Audit.Service.{log, id_of}
use godown_rbac_system.Rbac.Queries.{in_tenant}
use godown_rbac_system.Rbac.Writes.{has_slug}

-- The columns that an update writes.
abbrev pub set_role : UserTenantRole → UserTenantRole → UserTenantRole
set_role m n = record n { role = m.role; assigned_by = m.assigned_by }

module _ (env : Env) where
  -- `save()` of a new row.
  unfoldable pub insert_membership : UserTenantRole → Action (Unit {0})
  insert_membership m = do
    rows ← reads (λ db. or_raise integrity_error (env.memberships.create m db.memberships))
    modify (λ db. record db { memberships = rows })
    context ← gets (λ w. w.context)
    enqueue (audit_post_save (membership_model env) context true [] m)

  -- `save(update_fields=…)` of a row that exists: the signals compare it with the stored one.
  unfoldable pub save_membership : UserTenantRole → Action (Unit {0})
  save_membership m = do
    stored ← gets (λ w. first env.memberships (λ n. n.id == m.id) w.db.memberships)
    let old = audit_pre_save (membership_model env) stored
    modify (λ db. record db {
      memberships = env.memberships.update (λ n. n.id == m.id) (set_role m) db.memberships;
    })
    context ← gets (λ w. w.context)
    enqueue (audit_post_save (membership_model env) context false old m)

  unfoldable pub new_membership : User → Tenant → Role → Option User → Action UserTenantRole
  unfolding insert_membership
  new_membership user tenant role assigned_by = do
    id ← draw_uuid env
    created_at ← read_clock env
    let m : UserTenantRole = record {
      id = id;
      user = user.id;
      tenant = tenant.id;
      role = role.id;
      assigned_by = id_of assigned_by;
      created_at = created_at;
    }
    insert_membership m
    pure m

  abbrev set_or_new :
      User → Tenant → Role → Option User → Option UserTenantRole → Action UserTenantRole
  set_or_new user tenant role assigned_by none = new_membership user tenant role assigned_by
  set_or_new user tenant role assigned_by (some old) =
      let m = record old { role = role.id; assigned_by = id_of assigned_by } in
      save_membership m >> pure m

  -- `UserTenantRole.objects.update_or_create(user_id=user.pk, tenant=tenant, defaults=…)`
  unfoldable pub upsert_membership : User → Tenant → Role → Option User → Action UserTenantRole
  unfolding new_membership save_membership
  upsert_membership user tenant role assigned_by = do
    old ← reads (λ db. optional (get env.memberships (in_tenant user tenant) db.memberships))
    set_or_new user tenant role assigned_by old

  -- `Role.objects.filter(tenant=tenant).values_list('slug', flat=True)`
  abbrev pub available : Tenant → Db → List String
  available tenant db = map (λ r. r.slug) (env.roles.filter (λ r. r.tenant == tenant.id) db.roles)

  -- From the role that the slug names on.
  unfoldable pub give_role :
      User → Tenant → String → Option User → Option Role → Action UserTenantRole
  give_role user tenant slug assigned_by none =
      reads (λ db. raise (not_found (role_not_found slug tenant.name (available tenant db))))
  give_role user tenant slug assigned_by (some role) = do
    m ← upsert_membership user tenant role assigned_by
    log env AuditAction.role_assigned none (some tenant) assigned_by "User" (env.show_id user.id)
        (("role", slug) ∷ ("target_email", user.email) ∷ [])
    pure m

  unfoldable pub assign_role : User → Tenant → String → Option User → Action UserTenantRole
  assign_role user tenant slug assigned_by = atomic (do
    role ← reads (λ db. optional (get env.roles (has_slug tenant slug) db.roles))
    give_role user tenant slug assigned_by role)

  -- `UserTenantRole.objects.filter(…).delete()`, and whether it removed a row.
  unfoldable pub delete_memberships : (UserTenantRole → Bool) → Action Bool
  delete_memberships p = do
    doomed ← gets (λ w. env.memberships.filter p w.db.memberships)
    context ← gets (λ w. w.context)
    modify (λ db. record db { memberships = env.memberships.delete p db.memberships })
    enqueue (map (audit_post_delete (membership_model env) context) doomed)
    pure (nonempty doomed)

  abbrev log_revoked : User → Tenant → Bool → Action (Unit {0})
  log_revoked user tenant false = pure tt
  log_revoked user tenant true =
      log env AuditAction.role_revoked none (some tenant) none "User" (env.show_id user.id)
        (("target_email", user.email) ∷ [])

  unfoldable pub revoke_role : User → Tenant → Action Bool
  revoke_role user tenant = do
    deleted ← delete_memberships (in_tenant user tenant)
    log_revoked user tenant deleted
    pure deleted
