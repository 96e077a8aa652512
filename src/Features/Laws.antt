-- ===== src/Features/Laws.antt =====
-- `get_active_features` lists exactly the features of which `is_feature_active` says that they
-- are active.
use godown_rbac_system.Prelude.{
  ℕ, ◌≤◌, String, Bool, true, List, [], ◌∷◌, Option, none, some, ◌≡◌, refl, sym, ap, ◌∙◌, ◌⊎◌, inl,
  inr, length, head?, select, contains, arith, eq_iff, is_some_of,
}
use godown_rbac_system.Orm.Laws.{select-select}
use godown_rbac_system.Orm.Distinct.{Distinct, IsKey, select_key}
use godown_rbac_system.Models.{Tenant, FeatureFlag, flag_clash, same_tenant}
use godown_rbac_system.World.{Db, Env}
use godown_rbac_system.Features.{
  global_or_off, flag_of, tenant_or_global, of_tenant, is_flag, assign_all, toggles_of,
  is_feature_active, get_active_features, merged,
}
use godown_rbac_system.Features.Toggles.{
  lookup, or_else, is_on, active_of, named, Keyed, lookup-assign_all, assign_all-Keyed,
  lookup-merge, merge-Keyed, contains-active_names,
}

same_owner :
    (o p : Option ℕ) (k : ℕ)
    → is_some_of o k ≡ true
    → is_some_of p k ≡ true
    → same_tenant o p ≡ true
same_owner none p k h g = ground arith
same_owner (some a) none k h g = ground arith
same_owner (some a) (some b) k h g = ground arith

pub is_flag-IsKey : (t : Tenant) (name : String) → IsKey flag_clash (is_flag (some t) name)
is_flag-IsKey t name f g p q = ground (
  arith,
  same_owner f.tenant g.tenant t.id,
  eq_iff f.name name,
  eq_iff g.name name,
  eq_iff f.name g.name,
)

length_one :
    (fs : List FeatureFlag) → (fs ≡ []) ⊎ ((f : FeatureFlag) × (fs ≡ f ∷ [])) → length fs ≤ 1
length_one fs (inl e) = rw e (ground arith)
length_one fs (inr (f, e)) = rw e (ground arith)

or_else-none : (o : Option Bool) → or_else o none ≡ o
or_else-none none = refl
or_else-none (some b) = refl

module _ (env : Env) (name : String) (db : Db) where
  -- The tenant's flag if there is one, or else the global one.
  abbrev pub feature : Option Tenant → Option Bool
  feature none = active_of (select (is_flag none name) db.flags)
  feature (some t) =
      or_else (active_of (select (is_flag (some t) name) db.flags))
        (active_of (select (is_flag none name) db.flags))

  toggles_of-Keyed : (tenant : Option Tenant) → Keyed (toggles_of env tenant db)
  toggles_of-Keyed tenant = assign_all-Keyed [] _ tt

  lookup-toggles_of :
      (tenant : Option Tenant)
      → length (select (is_flag tenant name) db.flags) ≤ 1
      → lookup name (toggles_of env tenant db) ≡ active_of (select (is_flag tenant name) db.flags)
  lookup-toggles_of tenant h =
      ap (λ fs. lookup name (assign_all [] fs)) (env.flags.filter_lem (of_tenant tenant) db.flags)
      ∙ lookup-assign_all name [] (select (of_tenant tenant) db.flags)
          (rw (select-select (named name) (of_tenant tenant) db.flags) h)
      ∙ rw (select-select (named name) (of_tenant tenant) db.flags) (or_else-none _)

  global_lem : (fs : List FeatureFlag) → global_or_off env (head? fs) ≡ is_on (active_of fs)
  global_lem [] = refl
  global_lem (f ∷ fs) = refl

  override_lem :
      (fs gs : List FeatureFlag)
      → flag_of env none name db ≡ head? gs
      → tenant_or_global env name db (head? fs) ≡ is_on (or_else (active_of fs) (active_of gs))
  override_lem [] gs e = rw e (global_lem gs)
  override_lem (f ∷ fs) gs e = refl

  -- What `is_feature_active` reads off the rows.
  pub feature_lem :
      (tenant : Option Tenant) → is_feature_active env tenant name db ≡ is_on (feature tenant)
  unfolding is_feature_active
  feature_lem none =
      ap (λ fs. global_or_off env (head? fs)) (env.flags.filter_lem _ db.flags)
      ∙ global_lem (select (is_flag none name) db.flags)
  feature_lem (some t) =
      ap (λ fs. tenant_or_global env name db (head? fs)) (env.flags.filter_lem _ db.flags)
      ∙ override_lem (select (is_flag (some t) name) db.flags) (select (is_flag none name) db.flags)
          (ap head? (env.flags.filter_lem _ db.flags))

  lookup-merged :
      (tenant : Option Tenant)
      → Distinct flag_clash db.flags
      → length (select (is_flag none name) db.flags) ≤ 1
      → (lookup name (merged env tenant db) ≡ feature tenant) × Keyed (merged env tenant db)
  unfolding merged
  lookup-merged none d h = (lookup-toggles_of none h, toggles_of-Keyed none)
  lookup-merged (some t) d h =
      let one =
        length_one _
          (select_key flag_clash (is_flag (some t) name) db.flags (is_flag-IsKey t name) d) in
      (
        lookup-merge name (toggles_of env none db) (toggles_of env (some t) db)
              (toggles_of-Keyed (some t))
            ∙ rw (lookup-toggles_of none h, lookup-toggles_of (some t) one) refl,
        merge-Keyed (toggles_of env none db) (toggles_of env (some t) db) (toggles_of-Keyed none),
      )

  -- In tables where no two flags of a scope have the same name, the global scope included (whose
  -- NULL no unique constraint binds), a feature is active exactly if it is listed as active.
  pub is_feature_active-get_active_features :
      (tenant : Option Tenant)
      → Distinct flag_clash db.flags
      → length (select (is_flag none name) db.flags) ≤ 1
      → is_feature_active env tenant name db ≡ contains name (get_active_features env tenant db)
  unfolding get_active_features
  is_feature_active-get_active_features tenant d h =
      let (value, keyed) = lookup-merged tenant d h in
      feature_lem tenant
      ∙ ap is_on (sym value)
      ∙ sym (contains-active_names name (merged env tenant db) keyed)
