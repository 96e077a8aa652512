-- ===== src/Models.antt =====
-- The models of apps/rbac/models.py, apps/tenants/models.py and apps/audit/models.py and of the
-- user model: a record for each, with its unique constraints. Primary keys, UUIDs and integers
-- alike, are numbers; so are points in time.
use godown_rbac_system.Prelude.{
  ℕ, String, Bool, false, ◌&&◌, ◌||◌, List, Option, none, some, ◌==◌, str_eq, is_some_of,
}

-- Django's user; `password` is the stored hash.
pub record User : Type 0 where
  pub id : ℕ
  pub username : String
  pub email : String
  pub first_name : String
  pub last_name : String
  pub password : String
  pub is_active : Bool
  pub is_superuser : Bool

-- `request.user`: an AnonymousUser, or a user, who is authenticated.
pub data Caller : Type 0 where
  anonymous : Caller
  signed_in : User → Caller

pub record Tenant : Type 0 where
  pub id : ℕ
  pub name : String
  pub slug : String
  pub schema_name : String
  pub is_active : Bool
  pub created_at : ℕ
  pub updated_at : ℕ

pub record Domain : Type 0 where
  pub id : ℕ
  pub tenant : ℕ
  pub domain : String
  pub is_primary : Bool

pub record Permission : Type 0 where
  pub id : ℕ
  pub code : String
  pub description : String
  pub created_at : ℕ

pub record Role : Type 0 where
  pub id : ℕ
  pub tenant : ℕ
  pub name : String
  pub slug : String
  pub is_default : Bool
  pub weight : ℕ
  pub created_at : ℕ

-- A row of the table behind `Role.permissions`.
pub record Grant : Type 0 where
  pub role : ℕ
  pub permission : ℕ

pub record UserTenantRole : Type 0 where
  pub id : ℕ
  pub user : ℕ
  pub tenant : ℕ
  pub role : ℕ
  pub assigned_by : Option ℕ
  pub created_at : ℕ

-- `tenant` is NULL for a global flag.
pub record FeatureFlag : Type 0 where
  pub id : ℕ
  pub tenant : Option ℕ
  pub name : String
  pub is_active : Bool
  pub created_at : ℕ
  pub updated_at : ℕ

-- `AuditLog.Action`
pub data AuditAction : Type 0 where
  login logout login_failed password_reset_requested password_reset_confirmed : AuditAction
  user_registered user_deleted role_assigned role_revoked create update delete : AuditAction

abbrev pub Values : Type 0
Values = List (String × Option String)

-- The JSON of `AuditLog.changes`.
pub data Changes : Type 0 where
  no_changes : Changes
  created : Values → Changes
  updated : Values → Values → Changes
  deleted : Values → Changes

pub record AuditLog : Type 0 where
  pub id : ℕ
  pub tenant : Option ℕ
  pub actor : Option ℕ
  pub actor_email : String
  pub action : AuditAction
  pub resource_type : String
  pub resource_id : String
  pub metadata : List (String × String)
  pub changes : Changes
  pub ip_address : Option String
  pub user_agent : String
  pub timestamp : ℕ

pub record Notification : Type 0 where
  pub id : ℕ
  pub user : ℕ
  pub title : String
  pub body : String
  pub is_read : Bool
  pub created_at : ℕ

-- simplejwt's record of a refresh token that it gave out.
pub record OutstandingToken : Type 0 where
  pub id : ℕ
  pub user : Option ℕ

-- simplejwt's record of a refresh token that is no longer taken; it goes with the token it names.
pub record BlacklistedToken : Type 0 where
  pub id : ℕ
  pub token : ℕ

-- The unique constraints: the primary key, `unique=True` and `unique_together`. SQL counts two
-- NULLs as different, so the last one does not bind global flags.
abbrev pub permission_clash : Permission → Permission → Bool
permission_clash p q = p.id == q.id || str_eq p.code q.code

abbrev pub role_clash : Role → Role → Bool
role_clash r s = r.id == s.id || (r.tenant == s.tenant && str_eq r.slug s.slug)

abbrev pub membership_clash : UserTenantRole → UserTenantRole → Bool
membership_clash m n = m.id == n.id || (m.user == n.user && m.tenant == n.tenant)

abbrev pub same_tenant : Option ℕ → Option ℕ → Bool
same_tenant none t = false
same_tenant (some s) t = is_some_of t s

abbrev pub flag_clash : FeatureFlag → FeatureFlag → Bool
flag_clash f g = f.id == g.id || (same_tenant f.tenant g.tenant && str_eq f.name g.name)

abbrev pub tenant_clash : Tenant → Tenant → Bool
tenant_clash s t = s.id == t.id || (str_eq s.slug t.slug || str_eq s.schema_name t.schema_name)

abbrev pub domain_clash : Domain → Domain → Bool
domain_clash d e = d.id == e.id || str_eq d.domain e.domain

abbrev pub user_clash : User → User → Bool
user_clash u v = u.id == v.id || str_eq u.username v.username

abbrev pub notification_clash : Notification → Notification → Bool
notification_clash a b = a.id == b.id

abbrev pub token_clash : OutstandingToken → OutstandingToken → Bool
token_clash a b = a.id == b.id

abbrev pub blacklist_clash : BlacklistedToken → BlacklistedToken → Bool
blacklist_clash a b = a.id == b.id || a.token == b.token

abbrev pub audit_log_clash : AuditLog → AuditLog → Bool
audit_log_clash a b = a.id == b.id
