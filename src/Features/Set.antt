-- ===== src/Features/Set.antt =====
-- What `set_feature` promises for a tenant: the feature then is as it was set, and no other feature
-- and no other tenant sees a difference.
use godown_rbac_system.Prelude.{
  ℕ, suc, String, Bool, true, false, ◌&&◌, ◌||◌, List, [], ◌∷◌, ◌++◌, Option, none, some, ◌≡◌, ◌≢◌,
  ◌⊎◌, refl, sym, ap, ◌∙◌, inl, inr, map, ◌==◌, str_eq, eq_iff, eq_refl, select, any, arith,
  is_some_of, is_none, if◌then◌else◌, ==_refl,
}
use godown_rbac_system.Orm.{Inserts}
use godown_rbac_system.Orm.Laws.{
  any-select, any-and_comm, map_if_none, select_hit, select-insert_new, select-insert_other,
  select-update, any_or, any_congr, any_of_select-nil,
}
use godown_rbac_system.Orm.Distinct.{Distinct, select_key, select_self}
use godown_rbac_system.Models.{Tenant, FeatureFlag, flag_clash, same_tenant}
use godown_rbac_system.World.{World, Env, ok}
use godown_rbac_system.Features.{is_flag, set_active, set_feature, is_feature_active}
use godown_rbac_system.Features.Laws.{is_flag-IsKey, feature, feature_lem}
use godown_rbac_system.Features.Toggles.{active_of, is_on}

-- Another name, another tenant, or the global scope.
abbrev pub IsOtherScope : Tenant → Option Tenant → Type 0
IsOtherScope t none = Unit
IsOtherScope t (some s) = s.id ≢ t.id

abbrev pub IsOtherFlag : Tenant → String → Option Tenant → String → Type 0
IsOtherFlag t name scope other = (other ≢ name) ⊎ IsOtherScope t scope

owners_differ : (o : Option ℕ) (j k : ℕ) → k ≢ j → is_some_of o j ≡ true → is_some_of o k ≡ false
owners_differ none j k h e = refl
owners_differ (some a) j k h e = ground arith

not_global : (o : Option ℕ) (j : ℕ) → is_some_of o j ≡ true → is_none o ≡ false
not_global none j e = ground arith
not_global (some a) j e = refl

other_missed :
    (t : Tenant) (name : String) (scope : Option Tenant) (other : String)
    → IsOtherFlag t name scope other
    → (f : FeatureFlag) → is_flag (some t) name f ≡ true
    → is_flag scope other f ≡ false
other_missed t name scope other (inl h) f e =
    ground (arith, eq_iff f.name name, eq_iff f.name other)
other_missed t name none other (inr h) f e = ground (arith, not_global f.tenant t.id)
other_missed t name (some s) other (inr h) f e = ground (arith, owners_differ f.tenant t.id s.id h)

-- The flags after the call.
pub record IsToggled (t : Tenant) (name : String) (flag : FeatureFlag)
    (before after : List FeatureFlag) : Type 0 where
  pub row : active_of (select (is_flag (some t) name) after) ≡ some flag.is_active
  pub others :
      (scope : Option Tenant) (other : String)
      → IsOtherFlag t name scope other
      → active_of (select (is_flag scope other) after)
        ≡ active_of (select (is_flag scope other) before)

module _ (t : Tenant) (name : String) (old flag : FeatureFlag) (fs : List FeatureFlag)
    (d : Distinct flag_clash fs) (listed : select (is_flag (some t) name) fs ≡ old ∷ [])
    (same_id : flag.id ≡ old.id) where
  abbrev changed : List FeatureFlag
  changed = map (λ f. if f.id == flag.id then set_active flag f else f) fs

  saved_row : select (is_flag (some t) name) changed ≡ set_active flag old ∷ []
  saved_row =
      select-update (is_flag (some t) name) (λ f. f.id == flag.id) (set_active flag) fs (λ f. refl)
      ∙ ap (map (λ f. if f.id == flag.id then set_active flag f else f)) listed
      ∙ ground arith

  is_flag-kept :
      (scope : Option Tenant) (other : String) (f : FeatureFlag)
      → is_flag scope other (set_active flag f) ≡ is_flag scope other f
  is_flag-kept none other f = refl
  is_flag-kept (some s) other f = refl

  by_id : select (λ f. f.id == flag.id) fs ≡ old ∷ []
  by_id =
      select_self flag_clash (is_flag (some t) name) (λ f. f.id == flag.id) fs old
        (λ a b p q. ground arith) (ground arith) d listed

  saved_others :
      (scope : Option Tenant) (other : String)
      → IsOtherFlag t name scope other
      → select (is_flag scope other) changed ≡ select (is_flag scope other) fs
  saved_others scope other h =
      let p = is_flag scope other in
      select-update p (λ f. f.id == flag.id) (set_active flag) fs (is_flag-kept scope other)
      ∙ map_if_none (λ f. f.id == flag.id) (set_active flag) _
          (any-select (λ f. f.id == flag.id) p fs
            ∙ any-and_comm p (λ f. f.id == flag.id) fs
            ∙ sym (any-select p (λ f. f.id == flag.id) fs)
            ∙ ap (any p) by_id
            ∙ ap (λ b. b || false)
                (other_missed t name scope other h old
                  (select_hit (is_flag (some t) name) fs old [] listed)))

  saved-IsToggled : IsToggled t name flag fs changed
  saved-IsToggled = record {
    row = ap active_of saved_row;
    others = λ scope other h. ap active_of (saved_others scope other h);
  }

new-IsToggled :
    (t : Tenant) (name : String) (flag : FeatureFlag) (fs fs' : List FeatureFlag)
    → is_flag (some t) name flag ≡ true
    → any (is_flag (some t) name) fs ≡ false
    → Inserts flag fs (some fs')
    → IsToggled t name flag fs fs'
new-IsToggled t name flag fs fs' hit absent ins = record {
  row = ap active_of (select-insert_new (is_flag (some t) name) flag fs fs' ins hit absent);
  others = λ scope other h. ap active_of (
      select-insert_other (is_flag scope other) flag fs fs' ins
        (other_missed t name scope other h flag hit));
}

module _ (env : Env) (t : Tenant) (name : String) (active : Bool) (w : World)
    (d : Distinct flag_clash w.db.flags)
    (unused : any (λ f. env.uuid4 w.ticks == f.id) w.db.flags ≡ false) where
  abbrev Done : Type 0
  Done =
      (flag : FeatureFlag) × ((set_feature env (some t) name active w).0 ≡ ok flag)
      × (flag.is_active ≡ active)
      × IsToggled t name flag w.db.flags (set_feature env (some t) name active w).1.db.flags

  set_old : (old : FeatureFlag) → select (is_flag (some t) name) w.db.flags ≡ old ∷ [] → Done
  unfolding set_feature
  set_old old listed =
      let flag : FeatureFlag = record old { is_active = active; updated_at = env.now w.ticks } in
      rw
        (
          env.flags.filter_lem (is_flag (some t) name) w.db.flags,
          listed,
          env.flags.update_lem (λ f. f.id == old.id) (set_active flag) w.db.flags,
        )
        (flag, refl, refl, saved-IsToggled t name old flag w.db.flags d listed refl)

  abbrev fresh_flag : FeatureFlag
  fresh_flag = record {
    id = env.uuid4 w.ticks;
    tenant = some t.id;
    name = name;
    is_active = active;
    created_at = env.now (suc w.ticks);
    updated_at = env.now (suc (suc w.ticks));
  }

  owned : (o : Option ℕ) → same_tenant (some t.id) o ≡ is_some_of o t.id
  owned none = refl
  owned (some k) = ground arith

  no_clash :
      any (is_flag (some t) name) w.db.flags ≡ false
      → any (flag_clash fresh_flag) w.db.flags ≡ false
  no_clash absent =
      any_or (λ f. env.uuid4 w.ticks == f.id)
        (λ f. same_tenant (some t.id) f.tenant && str_eq name f.name) w.db.flags
      ∙ ground (
        arith,
        any_congr (λ f. same_tenant (some t.id) f.tenant && str_eq name f.name)
            (is_flag (some t) name) w.db.flags
            (λ f. ground (arith, owned f.tenant, eq_iff name f.name, eq_iff f.name name)),
      )

  set_new : select (is_flag (some t) name) w.db.flags ≡ [] → Done
  unfolding set_feature
  set_new none_listed =
      let absent = any_of_select-nil (is_flag (some t) name) w.db.flags none_listed in
      let (xs, ys, before, after) =
        env.flags.create_fresh fresh_flag w.db.flags (no_clash absent) in
      rw (env.flags.filter_lem (is_flag (some t) name) w.db.flags, none_listed, after)
        (
          fresh_flag,
          refl,
          refl,
          new-IsToggled t name fresh_flag w.db.flags (xs ++ fresh_flag ∷ ys)
              (rw (==_refl t.id, eq_refl name) refl) absent (xs, ys, before, refl),
        )

  set_done : Done
  set_done =
      elim (select_key flag_clash (is_flag (some t) name) w.db.flags (is_flag-IsKey t name) d) [
        | inl none_listed ↦ set_new none_listed
        | inr (old, listed) ↦ set_old old listed
      ]

  -- In tables where no two flags clash, and with a new key that is unused, setting a tenant's
  -- feature returns a flag with the value that was set, and the feature then has that value.
  pub set_feature-is_feature_active :
      (flag : FeatureFlag) × ((set_feature env (some t) name active w).0 ≡ ok flag)
      × (flag.is_active ≡ active)
      × (is_feature_active env (some t) name (set_feature env (some t) name active w).1.db ≡ active)
  set_feature-is_feature_active =
      let (flag, done, value, set) = set_done in
      (flag, done, value, feature_lem env name _ (some t) ∙ rw (set.row) value)

  -- In such tables, setting a tenant's feature leaves every other feature of the tenant, and every
  -- feature of every other tenant and of the global scope, as it was.
  pub set_feature-others :
      (scope : Option Tenant) (other : String)
      → IsOtherFlag t name scope other
      → is_feature_active env scope other (set_feature env (some t) name active w).1.db
        ≡ is_feature_active env scope other w.db
  set_feature-others scope other h =
      feature_lem env other _ scope
      ∙ ap is_on (same_feature scope h)
      ∙ sym (feature_lem env other w.db scope)
    where
      same_feature :
          (scope : Option Tenant)
          → IsOtherFlag t name scope other
          → feature env other (set_feature env (some t) name active w).1.db scope
            ≡ feature env other w.db scope
      same_feature none h = set_done.3.others none other h
      same_feature (some s) h =
          rw (set_done.3.others (some s) other h, set_done.3.others none other (inr tt)) refl
