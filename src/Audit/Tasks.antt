-- ===== src/Audit/Tasks.antt =====
-- apps/audit/tasks.py: the Celery task `write_audit_log`, and a worker that takes one message.
use godown_rbac_system.Prelude.{ℕ, String, Option, none, some, ◌==◌}
use Prim.Native.String.{◌++◌}
use godown_rbac_system.Orm.{get}
use godown_rbac_system.Models.{AuditAction, AuditLog}
use godown_rbac_system.World.{
  Env, Action, AuditTask, pure, reads, or_raise, optional, integrity_error, ◌>>=◌, ◌>>◌, modify,
  draw_uuid, read_clock,
}

-- The values of `AuditLog.Action`.
unfoldable pub action_code : AuditAction → String
action_code AuditAction.login = "login"
action_code AuditAction.logout = "logout"
action_code AuditAction.login_failed = "login_failed"
action_code AuditAction.password_reset_requested = "password_reset_requested"
action_code AuditAction.password_reset_confirmed = "password_reset_confirmed"
action_code AuditAction.user_registered = "user_registered"
action_code AuditAction.user_deleted = "user_deleted"
action_code AuditAction.role_assigned = "role_assigned"
action_code AuditAction.role_revoked = "role_revoked"
action_code AuditAction.create = "create"
action_code AuditAction.update = "update"
action_code AuditAction.delete = "delete"

abbrev key_of : {Row : Type 0} → (Row → ℕ) → Option Row → Option ℕ
key_of key none = none
key_of key (some r) = some (key r)

module _ (env : Env) where
  -- The tenant and the actor are kept if their rows still exist.
  unfoldable pub live_tenant : Option ℕ → Action (Option ℕ)
  live_tenant none = pure none
  live_tenant (some k) = do
    tenant ← reads (λ db. optional (get env.tenants (λ t. t.id == k) db.tenants))
    pure (key_of (λ t. t.id) tenant)

  unfoldable pub live_actor : Option ℕ → Action (Option ℕ)
  live_actor none = pure none
  live_actor (some k) = do
    actor ← reads (λ db. optional (get env.users (λ u. u.id == k) db.users))
    pure (key_of (λ u. u.id) actor)

  unfoldable pub write_audit_log : AuditTask → Action String
  unfolding live_tenant live_actor action_code
  write_audit_log task = do
    tenant ← live_tenant task.tenant_id
    actor ← live_actor task.actor_id
    id ← draw_uuid env
    timestamp ← read_clock env
    let entry : AuditLog = record {
      id = id;
      tenant = tenant;
      actor = actor;
      actor_email = task.actor_email;
      action = task.action;
      resource_type = task.resource_type;
      resource_id = task.resource_id;
      metadata = task.metadata;
      changes = task.changes;
      ip_address = task.ip_address;
      user_agent = task.user_agent;
      timestamp = timestamp;
    }
    rows ← reads (λ db. or_raise integrity_error (env.audit_logs.create entry db.audit_logs))
    modify (λ db. record db { audit_logs = rows })
    pure (
        "audit_logged:"
        ++ action_code task.action
        ++ ":"
        ++ task.resource_type
        ++ ":"
        ++ task.resource_id)
