-- ===== src/Tests/Environment.antt =====
-- An environment whose managers keep their rows in the order of insertion, and a small database:
-- two tenants, an owner of the first and a member of both.
use godown_rbac_system.Prelude.{
  all_distinct, ℕ, ◌+◌, String, Bool, true, false, not, ◌&&◌, List, [], ◌∷◌, ◌++◌, Option, none,
  some, ◌≡◌, refl, ap, ◌∙◌, map, ◌==◌, str_eq, select, any, arith, if◌then◌else◌, any-append,
}
use godown_rbac_system.Orm.{Objects}
use godown_rbac_system.Models.{
  Notification, User, Tenant, Permission, Role, Grant, UserTenantRole, FeatureFlag, AuditLog,
  AuditAction, no_changes,
}
use godown_rbac_system.World.{World, Db, Env, AuditContext, granted, has_id}

pub append_nil : {A : Type 0} (xs : List A) → xs ≡ xs ++ []
append_nil [] = refl
append_nil (x ∷ xs) = ap (λ ys. x ∷ ys) (append_nil xs)

module _ {Row : Type 0} (clash : Row → Row → Bool) where
  abbrev insert_last : Row → List Row → Option (List Row)
  insert_last r t = if any (clash r) t then none else some (t ++ r ∷ [])

  abbrev pub list_objects : Objects clash
  list_objects = record {
    filter = select;
    filter_lem = λ p t. refl;
    create = insert_last;
    create_clash = λ r t h. rw h refl;
    create_fresh = λ r t h. (t, [], append_nil t, rw h refl);
    update = λ p f t. map (λ r. if p r then f r else r) t;
    update_lem = λ p f t. refl;
    update_unique = λ p f t.
        if all_distinct clash (map (λ r. if p r then f r else r) t)
        then some (map (λ r. if p r then f r else r) t)
        else none;
    update_unique_lem = λ p f t. refl;
    delete = λ p t. select (λ r. not (p r)) t;
    delete_lem = λ p t. refl;
  }

abbrev grants_of : ℕ → List ℕ → List Grant
grants_of role ids = map (λ p. record { role = role; permission = p }) ids

-- The old rows of the role go, and one row for each permission comes.
abbrev pub set_grants : ℕ → List ℕ → List Grant → List Grant
set_grants role ids t = select (λ g. not (g.role == role)) t ++ grants_of role ids

granted-grants_of :
    (role r p : ℕ) (ids : List ℕ) → granted r p (grants_of role ids) ≡ (role == r && has_id p ids)
granted-grants_of role r p [] = ground arith
granted-grants_of role r p (i ∷ ids) = ground (arith, granted-grants_of role r p ids)

granted-select :
    (role r p : ℕ) (t : List Grant)
    → granted r p (select (λ g. not (g.role == role)) t) ≡ (not (role == r) && granted r p t)
granted-select role r p [] = ground arith
granted-select role r p (g ∷ t) = ground (arith, granted-select role r p t)

pub set_grants_lem :
    (role : ℕ) (ids : List ℕ) (t : List Grant) (r p : ℕ)
    → granted r p (set_grants role ids t) ≡ (if role == r then has_id p ids else granted r p t)
set_grants_lem role ids t r p =
    any-append (λ g. g.role == r && g.permission == p) (select (λ g. not (g.role == role)) t)
      (grants_of role ids)
    ∙ rw (granted-select role r p t, granted-grants_of role r p ids) (ground arith)

abbrev parse : String → Option ℕ
parse text = if str_eq text "one" then some 1 else if str_eq text "two" then some 2 else none

abbrev pub test_env : Env
test_env = record {
  users = list_objects _;
  tenants = list_objects _;
  domains = list_objects _;
  permissions = list_objects _;
  roles = list_objects _;
  memberships = list_objects _;
  flags = list_objects _;
  audit_logs = list_objects _;
  notifications = list_objects _;
  tokens = list_objects _;
  blacklist = list_objects _;
  set_permissions = set_grants;
  set_permissions_lem = set_grants_lem;
  show_id = λ k. "id";
  parse_uuid = parse;
  show_time = λ k. "time";
  uuid4 = λ k. 100 + k;
  short_hex = λ k. "0123456789ab";
  unusable_password = λ k. "!";
  now = λ k. k;
}

abbrev pub ann : User
ann = record {
  id = 1;
  username = "ann";
  email = "ann@one.example";
  first_name = "Ann";
  last_name = "";
  password = "hash";
  is_active = true;
  is_superuser = false;
}

abbrev pub bob : User
bob = record ann { id = 2; username = "bob"; email = "bob@one.example" }

abbrev pub tenant_one : Tenant
tenant_one = record {
  id = 1;
  name = "One";
  slug = "one";
  schema_name = "one";
  is_active = true;
  created_at = 0;
  updated_at = 0;
}

abbrev pub tenant_two : Tenant
tenant_two = record {
  id = 2;
  name = "Two";
  slug = "two";
  schema_name = "two";
  is_active = true;
  created_at = 0;
  updated_at = 0;
}

abbrev pub owner_one : Role
owner_one = record {
  id = 11;
  tenant = 1;
  name = "Owner";
  slug = "owner";
  is_default = true;
  weight = 30;
  created_at = 0;
}

abbrev pub member_one : Role
member_one = record owner_one { id = 12; name = "Member"; slug = "member"; weight = 10 }

abbrev pub member_two : Role
member_two = record member_one { id = 13; tenant = 2 }

abbrev pub reading : Permission
reading = record { id = 21; code = "stock.read"; description = ""; created_at = 0 }

abbrev pub writing : Permission
writing = record { id = 22; code = "stock.write"; description = ""; created_at = 0 }

abbrev pub ann_one : UserTenantRole
ann_one = record { id = 31; user = 1; tenant = 1; role = 11; assigned_by = none; created_at = 0 }

abbrev pub bob_one : UserTenantRole
bob_one = record ann_one { id = 32; user = 2; role = 12 }

abbrev pub bob_two : UserTenantRole
bob_two = record ann_one { id = 33; user = 2; tenant = 2; role = 13 }

abbrev pub beta_off : FeatureFlag
beta_off = record {
  id = 41;
  tenant = some 1;
  name = "beta";
  is_active = false;
  created_at = 0;
  updated_at = 0;
}

abbrev pub beta_on : FeatureFlag
beta_on = record beta_off { id = 42; tenant = none; is_active = true }

abbrev pub log_two : AuditLog
log_two = record {
  id = 51;
  tenant = some 2;
  actor = some 2;
  actor_email = "bob@one.example";
  action = AuditAction.login;
  resource_type = "";
  resource_id = "";
  metadata = [];
  changes = no_changes;
  ip_address = none;
  user_agent = "";
  timestamp = 0;
}

abbrev pub hello : Notification
hello = record { id = 71; user = 2; title = "Hello"; body = ""; is_read = false; created_at = 0 }

abbrev pub test_db : Db
test_db = record {
  users = ann ∷ bob ∷ [];
  tenants = tenant_one ∷ tenant_two ∷ [];
  domains = [];
  permissions = reading ∷ writing ∷ [];
  roles = owner_one ∷ member_one ∷ member_two ∷ [];
  grants = record { role = 12; permission = 21 } ∷ [];
  memberships = ann_one ∷ bob_one ∷ bob_two ∷ [];
  flags = beta_off ∷ beta_on ∷ [];
  audit_logs = log_two ∷ [];
  notifications = hello ∷ [];
  tokens = record { id = 81; user = some 2 } ∷ record { id = 82; user = some 1 } ∷ [];
  blacklist = record { id = 91; token = 81 } ∷ record { id = 92; token = 82 } ∷ [];
}

abbrev pub no_context : AuditContext
no_context = record { user = none; tenant = none; ip_address = none; user_agent = "" }

abbrev pub test_world : World
test_world = record { db = test_db; queue = []; context = no_context; ticks = 0 }
