-- ===== src/Users/Erasure.antt =====
-- services/users/gdpr_service.py: `GDPRService`, the erasure of one user.
pub mod Laws
pub mod Command
use godown_rbac_system.Prelude.{
  ℕ, ◌+◌, any, String, Bool, true, false, ◌&&◌, List, [], ◌∷◌, ◌++◌, Option, none, some, map, ◌==◌,
  str_eq, length, is_some_of, if◌then◌else◌,
}
use Prim.Native.String as Text
use godown_rbac_system.Orm.{get}
use godown_rbac_system.Models.{
  User, UserTenantRole, AuditLog, Notification, OutstandingToken, BlacklistedToken,
}
use godown_rbac_system.World.{
  World, Db, Env, Action, Result, pure, raise, gets, reads, or_raise, atomic, modify, enqueue,
  draw_uuid, read_clock, integrity_error, ok, ◌>>=◌, ◌>>◌,
}
use godown_rbac_system.Audit.Signals.{audit_post_delete, membership_model}

pub data ErasureMode : Type 0 where
  anonymized hard_deleted : ErasureMode

pub record ErasureResult : Type 0 where
  pub user_id : ℕ
  pub mode : ErasureMode
  pub notifications_deleted : ℕ
  pub roles_deleted : ℕ
  pub tokens_deleted : ℕ

-- The columns of `update_fields`.
abbrev pub set_identity : User → User → User
set_identity user v = record v {
  username = user.username;
  email = user.email;
  first_name = user.first_name;
  last_name = user.last_name;
  is_active = user.is_active;
  password = user.password;
}

-- The user with the placeholder identity.
abbrev pub placeholder : String → String → User → User
placeholder tag password user = record user {
  username = Text.◌++◌ "deleted_" tag;
  email = Text.◌++◌ (Text.◌++◌ "deleted_" tag) "@deleted.invalid";
  first_name = "";
  last_name = "";
  is_active = false;
  password = password;
}

-- Does the row refer to one of the tokens?
abbrev pub names_one_of : List OutstandingToken → BlacklistedToken → Bool
names_one_of tokens b = any (λ t. t.id == b.token) tokens

module _ (env : Env) where
  -- `_revoke_tokens`, with simplejwt and its blacklist installed, as the requirements and the
  -- settings say: what `delete` counts are the tokens and the rows that go with them.
  unfoldable pub revoke_tokens : User → Action ℕ
  revoke_tokens user = do
    doomed ← gets (λ w. env.tokens.filter (λ t. is_some_of t.user user.id) w.db.tokens)
    listed ← gets (λ w. env.blacklist.filter (names_one_of doomed) w.db.blacklist)
    modify (λ db. record db {
      tokens = env.tokens.delete (λ t. is_some_of t.user user.id) db.tokens;
      blacklist = env.blacklist.delete (names_one_of doomed) db.blacklist;
    })
    pure (length doomed + length listed)

  unfoldable pub delete_notifications : User → Action ℕ
  delete_notifications user = do
    doomed ← gets (λ w. env.notifications.filter (λ n. n.user == user.id) w.db.notifications)
    modify (λ db. record db {
      notifications = env.notifications.delete (λ n. n.user == user.id) db.notifications;
    })
    pure (length doomed)

  -- `_delete_roles`; every row that goes runs its audit signal.
  unfoldable pub delete_roles : User → Action ℕ
  delete_roles user = do
    doomed ← gets (λ w. env.memberships.filter (λ m. m.user == user.id) w.db.memberships)
    context ← gets (λ w. w.context)
    modify (λ db. record db {
      memberships = env.memberships.delete (λ m. m.user == user.id) db.memberships;
    })
    enqueue (map (audit_post_delete (membership_model env) context) doomed)
    pure (length doomed)

  unfoldable pub save_identity : User → Action (Unit {0})
  save_identity user = do
    rows ← reads (λ db.
        or_raise integrity_error
          (env.users.update_unique (λ v. v.id == user.id) (set_identity user) db.users))
    modify (λ db. record db { users = rows })

  unfoldable pub anonymize : User → Action ErasureResult
  unfolding revoke_tokens delete_notifications delete_roles save_identity
  anonymize user = atomic (do
    n_tokens ← revoke_tokens user
    n_notifs ← delete_notifications user
    n_roles ← delete_roles user
    tag ← draw_uuid env
    salt ← read_clock env
    save_identity (placeholder (env.short_hex tag) (env.unusable_password salt) user)
    pure (record {
      user_id = user.id;
      mode = anonymized;
      notifications_deleted = n_notifs;
      roles_deleted = n_roles;
      tokens_deleted = n_tokens;
    }))

  -- `user.delete()`: notifications, roles and tokens are gone by now; what else names the user
  -- is set to NULL (the columns of BaseModel in apps/common/models.py are not in `Db`).
  unfoldable pub delete_user : User → Action (Unit {0})
  delete_user user = modify (λ db. record db {
    memberships =
        env.memberships.update (λ m. is_some_of m.assigned_by user.id)
          (λ m. record m { assigned_by = none }) db.memberships;
    audit_logs =
        env.audit_logs.update (λ a. is_some_of a.actor user.id) (λ a. record a { actor = none })
          db.audit_logs;
    users = env.users.delete (λ v. v.id == user.id) db.users;
  })

  unfoldable pub hard_delete : User → Action ErasureResult
  unfolding revoke_tokens delete_notifications delete_roles delete_user
  hard_delete user = atomic (do
    n_tokens ← revoke_tokens user
    n_notifs ← delete_notifications user
    n_roles ← delete_roles user
    delete_user user
    pure (record {
      user_id = user.id;
      mode = hard_deleted;
      notifications_deleted = n_notifs;
      roles_deleted = n_roles;
      tokens_deleted = n_tokens;
    }))
