-- ===== src/Audit/Service.antt =====
-- services/audit/audit_service.py: `AuditService.log` and `AuditService.log_async`.
pub mod Keeps
use godown_rbac_system.Prelude.{
  ℕ, suc, String, List, [], ◌∷◌, Option, none, some, str_eq, if◌then◌else◌,
}
use godown_rbac_system.Models.{
  User, Caller, anonymous, signed_in, Tenant, AuditAction, AuditLog, Changes, no_changes,
}
use godown_rbac_system.World.{World, Env, Action, AuditTask, ok, enqueue}
use godown_rbac_system.Http.{Request}
use godown_rbac_system.Text.{before, strip}

-- `value or None`
abbrev pub or_null : Option String → Option String
or_null none = none
or_null (some s) = if str_eq s "" then none else some s

abbrev pub or_empty : Option String → String
or_empty none = ""
or_empty (some s) = s

abbrev forwarded : Option String → Option String → Option String
forwarded none addr = or_null addr
forwarded (some s) addr = if str_eq s "" then or_null addr else some (strip (before b',' s))

-- `_get_client_ip`
unfoldable pub get_client_ip : Request → Option String
unfolding before strip
get_client_ip request = forwarded request.forwarded_for request.remote_addr

-- Where the event came from, as both methods work it out first.
pub record Origin : Type 0 where
  pub actor : Option User
  pub ip_address : Option String
  pub user_agent : String

abbrev user_of : Caller → Option User
user_of anonymous = none
user_of (signed_in u) = some u

abbrev or_user : Option User → Caller → Option User
or_user (some u) caller = some u
or_user none caller = user_of caller

unfoldable pub origin : Option Request → Option User → Origin
unfolding get_client_ip
origin none actor = record { actor = actor; ip_address = none; user_agent = "" }
origin (some request) actor = record {
  actor = or_user actor request.user;
  ip_address = get_client_ip request;
  user_agent = or_empty request.user_agent;
}

abbrev pub email_of : Option User → String
email_of none = ""
email_of (some u) = u.email

abbrev pub id_of : Option User → Option ℕ
id_of none = none
id_of (some u) = some u.id

abbrev pub tenant_id_of : Option Tenant → Option ℕ
tenant_id_of none = none
tenant_id_of (some t) = some t.id

module _ (env : Env) where
  -- The row that `log` inserts; its key and its timestamp are the next two readings.
  unfoldable pub log_entry :
      World
      → AuditAction
      → Option Request
      → Option Tenant
      → Option User
      → String
      → String
      → List (String × String)
      → AuditLog
  unfolding origin
  log_entry w action request tenant actor resource_type resource_id metadata =
      let from = origin request actor in
      record {
        id = env.uuid4 w.ticks;
        tenant = tenant_id_of tenant;
        actor = id_of from.actor;
        actor_email = email_of from.actor;
        action = action;
        resource_type = resource_type;
        resource_id = resource_id;
        metadata = metadata;
        changes = no_changes;
        ip_address = from.ip_address;
        user_agent = from.user_agent;
        timestamp = env.now (suc w.ticks);
      }

  -- `except Exception`: a row that is refused is only reported to the log.
  abbrev written : World → Option (List AuditLog) → World
  written w none = record w { ticks = suc (suc w.ticks) }
  written w (some rows) = record w {
    db = record w.db { audit_logs = rows };
    ticks = suc (suc w.ticks);
  }

  unfoldable pub log :
      AuditAction
      → Option Request
      → Option Tenant
      → Option User
      → String
      → String
      → List (String × String)
      → Action (Unit {0})
  unfolding log_entry
  log action request tenant actor resource_type resource_id metadata w =
      let entry = log_entry w action request tenant actor resource_type resource_id metadata in
      (ok tt, written w (env.audit_logs.create entry w.db.audit_logs))

unfoldable pub log_async :
    AuditAction
    → Option Request
    → Option Tenant
    → Option User
    → String
    → String
    → List (String × String)
    → Changes
    → Action (Unit {0})
unfolding origin
log_async action request tenant actor resource_type resource_id metadata changes =
    let from = origin request actor in
    enqueue (
      record {
        action = action;
        tenant_id = tenant_id_of tenant;
        actor_id = id_of from.actor;
        actor_email = email_of from.actor;
        resource_type = resource_type;
        resource_id = resource_id;
        metadata = metadata;
        changes = changes;
        ip_address = from.ip_address;
        user_agent = from.user_agent;
      }
      ∷ [])
