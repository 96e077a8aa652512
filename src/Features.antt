-- ===== src/Features.antt =====
-- services/features/feature_service.py: `FeatureService`. A Python dict is an association list
-- in insertion order.
pub mod Views
pub mod Toggles
pub mod Laws
pub mod Set
use godown_rbac_system.Prelude.{
  ℕ, String, Bool, true, false, ◌&&◌, List, [], ◌∷◌, Option, none, some, map, ◌==◌, str_eq,
  is_some_of, is_none, if◌then◌else◌,
}
use godown_rbac_system.Orm.{get, first}
use godown_rbac_system.Models.{Tenant, FeatureFlag}
use godown_rbac_system.World.{
  World, Db, Env, Action, pure, gets, reads, optional, or_raise, modify, enqueue, draw_uuid,
  read_clock, integrity_error, ◌>>=◌, ◌>>◌,
}
use godown_rbac_system.Audit.Signals.{audit_pre_save, audit_post_save, flag_model}
use godown_rbac_system.Audit.Service.{tenant_id_of}

-- The lookup `tenant=tenant`; with None it is `tenant IS NULL`.
abbrev pub of_tenant : Option Tenant → FeatureFlag → Bool
of_tenant none f = is_none f.tenant
of_tenant (some t) f = is_some_of f.tenant t.id

abbrev pub is_flag : Option Tenant → String → FeatureFlag → Bool
is_flag tenant name f = of_tenant tenant f && str_eq f.name name

abbrev pub Toggles : Type 0
Toggles = List (String × Bool)

-- `d[name] = active`
unfoldable pub assign : String → Bool → Toggles → Toggles
assign name active [] = (name, active) ∷ []
assign name active ((n, a) ∷ d) =
    if str_eq n name then (n, active) ∷ d else (n, a) ∷ assign name active d

-- `{**d, …}`, and the comprehension over flags when `d` is empty.
unfoldable pub assign_all : Toggles → List FeatureFlag → Toggles
unfolding assign
assign_all d [] = d
assign_all d (f ∷ fs) = assign_all (assign f.name f.is_active d) fs

unfoldable pub merge : Toggles → Toggles → Toggles
unfolding assign
merge d [] = d
merge d ((name, active) ∷ e) = merge (assign name active d) e

-- `[name for name, active in merged.items() if active]`
unfoldable pub active_names : Toggles → List String
active_names [] = []
active_names ((name, active) ∷ d) = if active then name ∷ active_names d else active_names d

-- The columns that `save_flag` may change, taken from `flag`.
abbrev pub set_active : FeatureFlag → FeatureFlag → FeatureFlag
set_active flag f = record f { is_active = flag.is_active; updated_at = flag.updated_at }

module _ (env : Env) where
  abbrev pub global_or_off : Option FeatureFlag → Bool
  global_or_off none = false
  global_or_off (some f) = f.is_active

  abbrev pub flag_of : Option Tenant → String → Db → Option FeatureFlag
  flag_of tenant name db = first env.flags (is_flag tenant name) db.flags

  abbrev pub tenant_or_global : String → Db → Option FeatureFlag → Bool
  tenant_or_global name db none = global_or_off (flag_of none name db)
  tenant_or_global name db (some f) = f.is_active

  unfoldable pub is_feature_active : Option Tenant → String → Db → Bool
  is_feature_active none name db = global_or_off (flag_of none name db)
  is_feature_active (some t) name db = tenant_or_global name db (flag_of (some t) name db)

  abbrev pub toggles_of : Option Tenant → Db → Toggles
  toggles_of tenant db = assign_all [] (env.flags.filter (of_tenant tenant) db.flags)

  unfoldable pub merged : Option Tenant → Db → Toggles
  unfolding assign_all merge
  merged none db = toggles_of none db
  merged (some t) db = merge (toggles_of none db) (toggles_of (some t) db)

  unfoldable pub get_active_features : Option Tenant → Db → List String
  unfolding merged active_names
  get_active_features tenant db = active_names (merged tenant db)

  unfoldable pub insert_flag : FeatureFlag → Action (Unit {0})
  insert_flag flag = do
    rows ← reads (λ db. or_raise integrity_error (env.flags.create flag db.flags))
    modify (λ db. record db { flags = rows })
    context ← gets (λ w. w.context)
    enqueue (audit_post_save (flag_model env) context true [] flag)

  unfoldable pub new_flag : Option Tenant → String → Bool → Action FeatureFlag
  unfolding insert_flag
  new_flag tenant name is_active = do
    id ← draw_uuid env
    created_at ← read_clock env
    updated_at ← read_clock env
    let flag : FeatureFlag = record {
      id = id;
      tenant = tenant_id_of tenant;
      name = name;
      is_active = is_active;
      created_at = created_at;
      updated_at = updated_at;
    }
    insert_flag flag
    pure flag

  -- `save(update_fields=…)`: `updated_at` is `auto_now`.
  unfoldable pub save_flag : FeatureFlag → Action FeatureFlag
  save_flag old = do
    stored ← gets (λ w. first env.flags (λ f. f.id == old.id) w.db.flags)
    now ← read_clock env
    let flag = record old { updated_at = now }
    modify (λ db. record db {
      flags = env.flags.update (λ f. f.id == flag.id) (set_active flag) db.flags;
    })
    context ← gets (λ w. w.context)
    enqueue (
        audit_post_save (flag_model env) context false (audit_pre_save (flag_model env) stored)
          flag)
    pure flag

  abbrev set_or_new : Option Tenant → String → Bool → Option FeatureFlag → Action FeatureFlag
  set_or_new tenant name is_active none = new_flag tenant name is_active
  set_or_new tenant name is_active (some old) = save_flag (record old { is_active = is_active })

  -- `FeatureFlag.objects.update_or_create(tenant=tenant, name=name, defaults=…)`
  unfoldable pub set_feature : Option Tenant → String → Bool → Action FeatureFlag
  unfolding new_flag save_flag
  set_feature tenant name is_active = do
    old ← reads (λ db. optional (get env.flags (is_flag tenant name) db.flags))
    set_or_new tenant name is_active old
