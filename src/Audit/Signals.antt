-- ===== src/Audit/Signals.antt =====
-- apps/audit/signals.py: what `pre_save`, `post_save` and `post_delete` do for Role,
-- UserTenantRole and FeatureFlag. A save calls `audit_pre_save` on the row with its key in the
-- table, writes, and calls `audit_post_save`; for a new row `_old_values` is not read.
pub mod Diff
use godown_rbac_system.Prelude.{
  ℕ, String, Bool, true, false, List, [], ◌∷◌, Option, none, some, str_eq, if◌then◌else◌,
}
use godown_rbac_system.Models.{
  Caller, anonymous, signed_in, Role, UserTenantRole, FeatureFlag, AuditAction, Values, Changes,
  created, updated, deleted,
}
use godown_rbac_system.World.{AuditTask, AuditContext, Env}

-- `{field.name: field.value_to_string(instance) for field in sender._meta.fields}`
abbrev pub Fields : Type 0
Fields = List (String × String)

-- `sender`: its name, the values of its fields, its key and its `tenant_id`.
pub record Model (Row : Type 0) : Type 0 where
  pub name : String
  pub fields : Row → Fields
  pub pk : Row → String
  pub tenant_id : Row → Option ℕ

-- `old_vals.get(name)`
abbrev pub value_of : String → Fields → Option String
value_of name [] = none
value_of name ((n, v) ∷ fs) = if str_eq n name then some v else value_of name fs

abbrev pub is_value : Option String → String → Bool
is_value none v = false
is_value (some u) v = str_eq u v

-- The comprehensions over all fields but the password.
unfoldable pub visible : Fields → Values
visible [] = []
visible ((n, v) ∷ fs) = if str_eq n "password" then visible fs else (n, some v) ∷ visible fs

-- The loop of `audit_post_save`: `before_vals` and `after_vals`.
unfoldable pub diff : Fields → Fields → Values × Values
diff old [] = ([], [])
diff old ((n, v) ∷ fs) =
    let rest = diff old fs in
    if str_eq n "password"
    then rest
    else if is_value (value_of n old) v
    then rest
    else ((n, value_of n old) ∷ rest.0, (n, some v) ∷ rest.1)

-- `tenant_id`: the row's own, or that of the request.
abbrev pub tenant_of : AuditContext → Option ℕ → Option ℕ
tenant_of ctx (some t) = some t
tenant_of ctx none = elim ctx.tenant [ none ↦ none | some t ↦ some t.id ]

abbrev pub actor_of : Option Caller → Option ℕ × String
actor_of none = (none, "")
actor_of (some anonymous) = (none, "")
actor_of (some (signed_in u)) = (some u.id, u.email)

module _ {Row : Type 0} (model : Model Row) where
  abbrev pub audit_pre_save : Option Row → Fields
  audit_pre_save none = []
  audit_pre_save (some old) = model.fields old

  -- The call `write_audit_log.delay(…)`.
  unfoldable pub audit_task : AuditContext → AuditAction → Changes → Row → AuditTask
  audit_task ctx action changes row =
      let actor = actor_of ctx.user in
      record {
        action = action;
        tenant_id = tenant_of ctx (model.tenant_id row);
        actor_id = actor.0;
        actor_email = actor.1;
        resource_type = model.name;
        resource_id = model.pk row;
        metadata = [];
        changes = changes;
        ip_address = ctx.ip_address;
        user_agent = ctx.user_agent;
      }

  unfoldable pub update_tasks : AuditContext → Values × Values → Row → List AuditTask
  update_tasks ctx ([], []) row = []
  update_tasks ctx (b, a) row = audit_task ctx AuditAction.update (updated b a) row ∷ []

  unfoldable pub audit_post_save : AuditContext → Bool → Fields → Row → List AuditTask
  unfolding update_tasks
  audit_post_save ctx true old row =
      audit_task ctx AuditAction.create (created (visible (model.fields row))) row ∷ []
  audit_post_save ctx false old row = update_tasks ctx (diff old (model.fields row)) row

  unfoldable pub audit_post_delete : AuditContext → Row → AuditTask
  audit_post_delete ctx row =
      audit_task ctx AuditAction.delete (deleted (visible (model.fields row))) row

abbrev pub show_bool : Bool → String
show_bool true = "True"
show_bool false = "False"

-- `connect_audit_signals`: the three models that are audited, with their columns in order.
module _ (env : Env) where
  abbrev pub show_key : Option ℕ → String
  show_key none = "None"
  show_key (some k) = env.show_id k

  abbrev pub role_model : Model Role
  role_model = record {
    name = "Role";
    fields = λ r.
        ("id", env.show_id r.id)
        ∷ ("tenant", env.show_id r.tenant)
        ∷ ("name", r.name)
        ∷ ("slug", r.slug)
        ∷ ("is_default", show_bool r.is_default)
        ∷ ("weight", env.show_id r.weight)
        ∷ ("created_at", env.show_time r.created_at)
        ∷ [];
    pk = λ r. env.show_id r.id;
    tenant_id = λ r. some r.tenant;
  }

  abbrev pub membership_model : Model UserTenantRole
  membership_model = record {
    name = "UserTenantRole";
    fields = λ m.
        ("id", env.show_id m.id)
        ∷ ("user", env.show_id m.user)
        ∷ ("tenant", env.show_id m.tenant)
        ∷ ("role", env.show_id m.role)
        ∷ ("assigned_by", show_key m.assigned_by)
        ∷ ("created_at", env.show_time m.created_at)
        ∷ [];
    pk = λ m. env.show_id m.id;
    tenant_id = λ m. some m.tenant;
  }

  abbrev pub flag_model : Model FeatureFlag
  flag_model = record {
    name = "FeatureFlag";
    fields = λ f.
        ("id", env.show_id f.id)
        ∷ ("tenant", show_key f.tenant)
        ∷ ("name", f.name)
        ∷ ("is_active", show_bool f.is_active)
        ∷ ("created_at", env.show_time f.created_at)
        ∷ ("updated_at", env.show_time f.updated_at)
        ∷ [];
    pk = λ f. env.show_id f.id;
    tenant_id = λ f. f.tenant;
  }
