-- ===== src/Rbac/Writes/Defaults.antt =====
-- `create_default_roles` leaves the tenant with its default roles, and a second call finds them and
-- changes nothing.
use godown_rbac_system.Prelude.{
  ℕ, suc, ◌≤◌, String, true, false, List, [], ◌∷◌, some, ◌≡◌, refl, sym, ◌∙◌, inl, inr, ◌==◌,
  eq_iff, ==_iff, ==_refl, eq_refl, and-true, any, select, contains, map, str_eq, arith, Bool-cases,
}
use godown_rbac_system.Orm.{Inserts}
use godown_rbac_system.Orm.Laws.{
  any-insert, any_of_select-nil, select_hit, select-insert_new, select-insert_other,
}
use godown_rbac_system.Orm.Members.{any_hit}
use godown_rbac_system.Orm.Distinct.{Distinct, Distinct-insert, select_key}
use godown_rbac_system.Models.{Tenant, Role, role_clash}
use godown_rbac_system.World.{World, Env, ok}
use godown_rbac_system.Rbac.Writes.Growth.{
  Grows, Grows-refl, Grows-trans, SameHosts, SameHosts-refl, SameHosts-trans,
}
use godown_rbac_system.Rbac.Consistent.{has_slug-IsKey, role_clash_comm}
use godown_rbac_system.Rbac.Writes.{
  has_slug, ensure_role, ensure_roles, create_default_roles, default_roles,
}
use godown_rbac_system.Rbac.Writes.Insert.{fresh_role, with_row, no_clash, new_role_lem}

-- The keys still to be drawn are in no row.
pub record IsReady (env : Env) (w : World) : Type 0 where
  pub distinct : Distinct role_clash w.db.roles
  pub unused : (k : ℕ) → w.ticks ≤ k → any (λ r. env.uuid4 k == r.id) w.db.roles ≡ false

module _ (env : Env) (t : Tenant)
    (distinct_keys : (i j : ℕ) → env.uuid4 i ≡ env.uuid4 j → i ≡ j) where
  -- The roles stand in the tables under the slugs of the definitions, in order.
  abbrev pub AllHeld : World → List (String × String × ℕ) → List Role → Type 0
  AllHeld w [] [] = Unit
  AllHeld w [] (r ∷ rs) = ⊥
  AllHeld w (d ∷ ds) [] = ⊥
  AllHeld w (d ∷ ds) (r ∷ rs) = (select (has_slug t d.0) w.db.roles ≡ r ∷ []) × AllHeld w ds rs

  abbrev IsKept : World → World → Type 0
  IsKept w w' =
      (slug : String) (r : Role)
      → select (has_slug t slug) w.db.roles ≡ r ∷ []
      → select (has_slug t slug) w'.db.roles ≡ r ∷ []

  ensure_found :
      (slug name : String) (weight : ℕ) (w : World) (r : Role)
      → select (has_slug t slug) w.db.roles ≡ r ∷ []
      → ensure_role env t name slug weight w ≡ (ok r, w)
  unfolding ensure_role
  ensure_found slug name weight w r e =
      rw (env.roles.filter_lem (has_slug t slug) w.db.roles, e) refl

  abbrev Ensured : String → String → ℕ → World → Type 0
  Ensured slug name weight w =
      (r : Role) × (w' : World) × (ensure_role env t name slug weight w ≡ (ok r, w'))
      × (select (has_slug t slug) w'.db.roles ≡ r ∷ [])
      × IsReady env w'
      × IsKept w w'
      × Grows w w'
      × SameHosts w w'

  still_unused :
      (w : World) (role : Role) (rows : List Role)
      → role.id ≡ env.uuid4 w.ticks
      → Inserts role w.db.roles (some rows)
      → IsReady env w
      → (k : ℕ) → suc (suc w.ticks) ≤ k
      → any (λ r. env.uuid4 k == r.id) rows ≡ false
  still_unused w role rows own ins ready k later =
      any-insert (λ r. env.uuid4 k == r.id) role w.db.roles rows ins
      ∙ rw (ready.unused k (ground arith), own)
          (elim (Bool-cases (env.uuid4 k == env.uuid4 w.ticks)) [
            | inr apart ↦ rw apart refl
            | inl same ↦
                let equal =
                  distinct_keys k w.ticks ((==_iff (env.uuid4 k) (env.uuid4 w.ticks)).0 same) in
                ground arith
          ])

  ensure_new :
      (slug name : String) (weight : ℕ) (w : World)
      → IsReady env w
      → select (has_slug t slug) w.db.roles ≡ []
      → Ensured slug name weight w
  unfolding ensure_role
  ensure_new slug name weight w ready none_there =
      let role = fresh_role env t name slug weight true w in
      let absent = any_of_select-nil (has_slug t slug) w.db.roles none_there in
      let unused = ready.unused w.ticks (ground arith) in
      let hit : has_slug t slug role ≡ true = rw (==_refl t.id, eq_refl slug) refl in
      let (rows, ins, e) = new_role_lem env t name slug weight true w absent unused in
      (
        role,
        with_row env t name slug weight true w rows,
        rw (env.roles.filter_lem (has_slug t slug) w.db.roles, none_there) e,
        select-insert_new (has_slug t slug) role w.db.roles rows ins hit absent,
        record {
          distinct =
              Distinct-insert role_clash role_clash_comm role w.db.roles rows ins
                (no_clash env t name slug weight true w absent unused) ready.distinct;
          unused = still_unused w role rows refl ins ready;
        },
        kept role rows refl ins,
        record {
          memberships = refl;
          more = λ p h. any-insert p role w.db.roles rows ins ∙ ground (arith, h);
          ticks = ground arith;
        },
        record { tenants = refl; domains = refl },
      )
    where
      kept :
          (role : Role) (rows : List Role)
          → role.slug ≡ slug
          → Inserts role w.db.roles (some rows)
          → (other : String) (r : Role) → select (has_slug t other) w.db.roles ≡ r ∷ []
          → select (has_slug t other) rows ≡ r ∷ []
      kept role rows own ins other r listed = elim (Bool-cases (has_slug t other role)) [
        | inr missed ↦
            select-insert_other (has_slug t other) role w.db.roles rows ins missed ∙ listed
        | inl met ↦
            let e : slug ≡ other = sym own ∙ (eq_iff role.slug other).0 (and-true _ _ met).1 in
            let again : select (has_slug t slug) w.db.roles ≡ r ∷ [] = rw e listed in cc
      ]

  ensured :
      (slug name : String) (weight : ℕ) (w : World) → IsReady env w → Ensured slug name weight w
  ensured slug name weight w ready =
      elim (select_key role_clash (has_slug t slug) w.db.roles (has_slug-IsKey t slug)
        ready.distinct) [
          | inl none_there ↦ ensure_new slug name weight w ready none_there
          | inr (r, listed) ↦ (
            r,
            w,
            ensure_found slug name weight w r listed,
            listed,
            ready,
            (λ other s kept. kept),
            Grows-refl w,
            SameHosts-refl w,
          )
        ]

  abbrev pub AllEnsured : List (String × String × ℕ) → World → Type 0
  AllEnsured ds w =
      (rs : List Role) × (w' : World) × (ensure_roles env t ds w ≡ (ok rs, w'))
      × AllHeld w' ds rs
      × IsReady env w'
      × IsKept w w'
      × Grows w w'
      × SameHosts w w'

  pub all_ensured : (ds : List (String × String × ℕ)) (w : World) → IsReady env w → AllEnsured ds w
  unfolding ensure_roles
  all_ensured [] w ready = ([], w, refl, tt, ready, (λ slug r h. h), Grows-refl w, SameHosts-refl w)
  all_ensured ((slug, name, weight) ∷ ds) w ready =
      let (r, v, first, held, ready', kept, grows, hosts) = ensured slug name weight w ready in
      let (rs, w', rest, all_held, ready'', kept', grows', hosts') = all_ensured ds v ready' in
      (
        r ∷ rs,
        w',
        rw (first, rest) refl,
        (kept' slug r held, all_held),
        ready'',
        (λ other s h. kept' other s (kept other s h)),
        Grows-trans w v w' grows grows',
        SameHosts-trans w v w' hosts hosts',
      )

  -- Roles that stand in the tables are found, and nothing changes.
  held_run :
      (ds : List (String × String × ℕ)) (rs : List Role) (w : World)
      → AllHeld w ds rs
      → ensure_roles env t ds w ≡ (ok rs, w)
  unfolding ensure_roles
  held_run [] [] w h = refl
  held_run [] (r ∷ rs) w h = elim h [ ]
  held_run ((slug, name, weight) ∷ ds) [] w h = elim h [ ]
  held_run ((slug, name, weight) ∷ ds) (r ∷ rs) w h =
      rw (ensure_found slug name weight w r h.0, held_run ds rs w h.1) refl

  -- A default slug has its role.
  pub any_of_AllHeld :
      (ds : List (String × String × ℕ)) (rs : List Role) (w : World) (slug : String)
      → AllHeld w ds rs
      → contains slug (map (λ d. d.0) ds) ≡ true
      → any (has_slug t slug) w.db.roles ≡ true
  any_of_AllHeld [] rs w slug h e = cc
  any_of_AllHeld (d ∷ ds) [] w slug h e = elim h [ ]
  any_of_AllHeld (d ∷ ds) (r ∷ rs) w slug h e = elim (Bool-cases (str_eq d.0 slug)) [
    | inr other ↦ any_of_AllHeld ds rs w slug h.1 (ground arith)
    | inl same ↦
        let own : d.0 ≡ slug = (eq_iff d.0 slug).0 same in
        let listed : select (has_slug t slug) w.db.roles ≡ r ∷ [] = rw (← own) (h.0) in
        any_hit (has_slug t slug) (has_slug t slug) w.db.roles r [] listed
          (select_hit (has_slug t slug) w.db.roles r [] listed)
  ]

  -- If the keys that uuid4 draws are distinct and in no row, and roles do not clash,
  -- `create_default_roles` returns the tenant's roles under the three default slugs, in order, and
  -- a second call returns the same roles and changes nothing.
  pub create_default_roles_twice :
      (w : World)
      → IsReady env w
      → (rs : List Role) × (w' : World) × (create_default_roles env t w ≡ (ok rs, w'))
        × AllHeld w' default_roles rs
        × (create_default_roles env t w' ≡ (ok rs, w'))
  unfolding create_default_roles
  create_default_roles_twice w ready =
      let (rs, w', first, held, ready', kept, grows, hosts) = all_ensured default_roles w ready in
      (rs, w', first, held, held_run default_roles rs w' held)
