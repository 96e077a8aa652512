-- ===== src/World.antt =====
-- The state that the services read and write: the database, the messages handed to Celery
-- (`write_audit_log.delay`), the thread-local audit context of apps/audit/context.py, and how
-- often the clock and uuid4 were read. A service call is an action: it returns or raises, and
-- what it wrote before a raise stays written, unless it stands in `transaction.atomic`.
use godown_rbac_system.Prelude.{
  ℕ, suc, String, Bool, List, Option, none, some, ◌≡◌, if◌then◌else◌, ◌==◌, any, ◌&&◌, ◌++◌,
}
use godown_rbac_system.Orm.{Objects, Got, found, missing, several}
use godown_rbac_system.Models.{
  User, Caller, Tenant, Domain, Permission, Role, Grant, UserTenantRole, FeatureFlag, AuditAction,
  Changes, AuditLog, Notification, OutstandingToken, BlacklistedToken, notification_clash,
  token_clash, blacklist_clash, permission_clash, role_clash, membership_clash, flag_clash,
  tenant_clash, domain_clash, user_clash, audit_log_clash,
}

pub record Db : Type 0 where
  pub users : List User
  pub tenants : List Tenant
  pub domains : List Domain
  pub permissions : List Permission
  pub roles : List Role
  pub grants : List Grant
  pub memberships : List UserTenantRole
  pub flags : List FeatureFlag
  pub audit_logs : List AuditLog
  pub notifications : List Notification
  pub tokens : List OutstandingToken
  pub blacklist : List BlacklistedToken

-- The arguments of `write_audit_log`.
pub record AuditTask : Type 0 where
  pub action : AuditAction
  pub tenant_id : Option ℕ
  pub actor_id : Option ℕ
  pub actor_email : String
  pub resource_type : String
  pub resource_id : String
  pub metadata : List (String × String)
  pub changes : Changes
  pub ip_address : Option String
  pub user_agent : String

pub record AuditContext : Type 0 where
  pub user : Option Caller
  pub tenant : Option Tenant
  pub ip_address : Option String
  pub user_agent : String

pub record World : Type 0 where
  pub db : Db
  pub queue : List AuditTask
  pub context : AuditContext
  pub ticks : ℕ

-- Is the permission one of the role's?
abbrev pub granted : ℕ → ℕ → List Grant → Bool
granted role permission = any (λ g. g.role == role && g.permission == permission)

abbrev pub has_id : ℕ → List ℕ → Bool
has_id k = any (λ j. j == k)

-- What the program takes from Django and from its host: the managers of its models, `str` of a
-- key, a number or a time, the clock and uuid4 at each reading.
pub record Env : Type 0 where
  pub users : Objects user_clash
  pub tenants : Objects tenant_clash
  pub domains : Objects domain_clash
  pub permissions : Objects permission_clash
  pub roles : Objects role_clash
  pub memberships : Objects membership_clash
  pub flags : Objects flag_clash
  pub audit_logs : Objects audit_log_clash
  pub notifications : Objects notification_clash
  pub tokens : Objects token_clash
  pub blacklist : Objects blacklist_clash
  -- `role.permissions.set(…)`: afterwards the role has those permissions and no others
  pub set_permissions : ℕ → List ℕ → List Grant → List Grant
  pub set_permissions_lem :
      (role : ℕ) (ids : List ℕ) (t : List Grant) (r p : ℕ)
      → granted r p (set_permissions role ids t)
        ≡ (if role == r then has_id p ids else granted r p t)
  pub show_id : ℕ → String
  -- `uuid.UUID(text)`; `none` for a text that is no UUID
  pub parse_uuid : String → Option ℕ
  pub show_time : ℕ → String
  pub uuid4 : ℕ → ℕ
  -- `.hex[:12]` of a UUID, and what `set_unusable_password` draws
  pub short_hex : ℕ → String
  pub unusable_password : ℕ → String
  pub now : ℕ → ℕ

-- services/exceptions.py, with what the message names, and the exceptions of Django that the
-- services let through.
pub data Message : Type 0 where
  role_exists : String → String → Message
  unknown_codes : List String → Message
  permission_exists : String → Message
  role_not_found : String → String → List String → Message
  slug_empty slug_invalid domain_empty : Message
  schema_taken domain_taken : String → Message
  malformed_link spent_link weak_password : Message
  notification_missing user_missing : ℕ → Message
  email_required username_required password_required : Message
  username_taken email_taken credentials_taken : Message

pub data Exc : Type 0 where
  validation conflict not_found : Message → Exc
  multiple_objects integrity_error not_authenticated permission_denied http404 : Exc
  -- the ValidationError that a UUIDField raises for a text that is no UUID
  bad_uuid : Exc
  -- a ValueError, and what the mail backend raises with `fail_silently=False`
  value_error mail_failure : Exc
  -- a `save(update_fields=…)` that met no row
  database_error : Exc
  -- the CommandError of a management command
  command_error : Exc
  -- `next` of an iterator that is at its end
  stop_iteration : Exc
  -- the ValidationError of a model's `full_clean`
  model_invalid : Exc
  -- a serializer's `is_valid(raise_exception=True)`, with the field
  invalid_input : String → Exc

pub data Result (A : Type 0) : Type 0 where
  ok : A → Result A
  err : Exc → Result A

abbrev pub Action : Type 0 → Type 0
Action A = World → Result A × World

module _ {A : Type 0} where
  abbrev pub pure : A → Action A
  pure a w = (ok a, w)

  abbrev pub raise : Exc → Action A
  raise e w = (err e, w)

  abbrev pub gets : (World → A) → Action A
  gets f w = (ok (f w), w)

  -- A step that depends on the tables as they are now.
  abbrev pub reads : (Db → Action A) → Action A
  reads f w = f w.db w

  -- An INSERT that the database may refuse.
  abbrev pub or_raise : Exc → Option A → Action A
  or_raise e none = raise e
  or_raise e (some a) = pure a

  -- `transaction.atomic`: a raise restores the tables. Messages already handed to the broker, and
  -- readings of the clock, stay.
  abbrev pub rolled_back : World → Result A × World → Result A × World
  rolled_back before (ok a, w) = (ok a, w)
  rolled_back before (err e, w) = (err e, record w { db = before.db })

  abbrev pub atomic : Action A → Action A
  atomic m w = rolled_back w (m w)

-- `try: ….get(…) except DoesNotExist: None`
abbrev pub optional : {Row : Type 0} → Got Row → Action (Option Row)
optional (found r) = pure (some r)
optional missing = pure none
optional several = raise multiple_objects

-- `get_object_or_404(…)`
abbrev pub or_404 : {Row : Type 0} → Got Row → Action Row
or_404 (found r) = pure r
or_404 missing = raise http404
or_404 several = raise multiple_objects

abbrev pub proceed : {A B : Type 0} → (A → Action B) → Result A × World → Result B × World
proceed f (ok a, w) = f a w
proceed f (err e, w) = (err e, w)

infixl 5 ◌>>=◌ ◌>>◌
abbrev pub ◌>>=◌ : {A B : Type 0} → Action A → (A → Action B) → Action B
◌>>=◌ m f w = proceed f (m w)

abbrev pub ◌>>◌ : {A B : Type 0} → Action A → Action B → Action B
m >> k = m >>= λ _. k

abbrev pub modify : (Db → Db) → Action (Unit {0})
modify f w = (ok tt, record w { db = f w.db })

abbrev pub enqueue : List AuditTask → Action (Unit {0})
enqueue tasks w = (ok tt, record w { queue = w.queue ++ tasks })

module _ (env : Env) where
  -- `uuid.uuid4()` and `timezone.now()`
  abbrev pub draw_uuid : Action ℕ
  draw_uuid w = (ok (env.uuid4 w.ticks), record w { ticks = suc w.ticks })

  abbrev pub read_clock : Action ℕ
  read_clock w = (ok (env.now w.ticks), record w { ticks = suc w.ticks })
