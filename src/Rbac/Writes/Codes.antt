-- ===== src/Rbac/Writes/Codes.antt =====
-- The permissions that `role.permissions.set(permissions)` grants, read back through the join of
-- `has_permission`: exactly the codes that were asked for.
use godown_rbac_system.Prelude.{
  ℕ, String, Bool, true, false, not, ◌&&◌, List, [], ◌∷◌, ◌≡◌, refl, sym, ap, ◌∙◌, inl, inr, map,
  ◌==◌, str_eq, select, any, contains, All, arith, Bool-cases, eq_iff, ==_refl,
}
use godown_rbac_system.Orm.Laws.{any-select, any_of_select-nil, any_congr, any-map, any_and}
use godown_rbac_system.Orm.Distinct.{Distinct}
use godown_rbac_system.Models.{Permission, Grant, permission_clash}
use godown_rbac_system.World.{Db, Env, has_id}
use godown_rbac_system.Rbac.Queries.{grants_code}
use godown_rbac_system.Rbac.Checks.{grants-granted}
use godown_rbac_system.Rbac.Writes.{missing_codes, with_codes}

abbrev ids : List Permission → List ℕ
ids = map (λ p. p.id)

not_in_ids :
    (s : Permission → Bool) (p : Permission) (t : List Permission)
    → any (permission_clash p) t ≡ false
    → has_id p.id (ids (select s t)) ≡ false
not_in_ids s p [] h = refl
not_in_ids s p (q ∷ t) h = ground (arith, not_in_ids s p t)

apart :
    (p : Permission) (t : List Permission)
    → any (permission_clash p) t ≡ false
    → All (λ q. (p.id == q.id) ≡ false) t
apart p [] h = tt
apart p (q ∷ t) h = (ground arith, apart p t (ground arith))

skip_head :
    (s : Permission → Bool) (p : Permission) (t u : List Permission)
    → All (λ q. (p.id == q.id) ≡ false) u
    → All (λ q. has_id q.id (ids (select s t)) ≡ s q) u
    → All (λ q. has_id q.id (ids (select s (p ∷ t))) ≡ s q) u
skip_head s p t [] a h = tt
skip_head s p t (q ∷ u) a h = (ground arith, skip_head s p t u a.1 h.1)

-- With distinct keys, the rows whose keys are listed are the rows that were selected.
ids-select :
    (s : Permission → Bool) (t : List Permission)
    → Distinct permission_clash t
    → All (λ q. has_id q.id (ids (select s t)) ≡ s q) t
ids-select s [] d = tt
ids-select s (p ∷ t) d = (
  elim (Bool-cases (s p)) [
    | inl kept ↦ rw (kept, ==_refl p.id) refl
    | inr dropped ↦ rw dropped (not_in_ids s p t d.0)
  ],
  skip_head s p t t (apart p t d.0) (ids-select s t d.1),
)

any_congr-All :
    (f g c : Permission → Bool) (t : List Permission)
    → All (λ p. f p ≡ g p) t
    → any (λ p. f p && c p) t ≡ any (λ p. g p && c p) t
any_congr-All f g c [] h = refl
any_congr-All f g c (p ∷ t) h = ground (arith, any_congr-All f g c t)

-- No code is missing: each has its permission.
found_of_not_missing :
    (codes found : List String) (code : String)
    → any (λ c. not (contains c found)) codes ≡ false
    → contains code codes ≡ true
    → contains code found ≡ true
found_of_not_missing [] found code h k = cc
found_of_not_missing (c ∷ cs) found code h k = elim (Bool-cases (str_eq c code)) [
  | inl same ↦ let e : c ≡ code = (eq_iff c code).0 same in rw (← e) (ground arith)
  | inr other ↦ found_of_not_missing cs found code (ground arith) (ground arith)
]

any_weaken :
    (f c : Permission → Bool) (t : List Permission)
    → any (λ p. f p && c p) t ≡ true
    → any c t ≡ true
any_weaken f c [] h = cc
any_weaken f c (p ∷ t) h = ground (arith, any_weaken f c t)

and_implied : (a b : Bool) → (a ≡ true → b ≡ true) → (a && b) ≡ a
and_implied true b h = h refl
and_implied false b h = refl

module _ (env : Env) (codes : List String) (db : Db) where
  code_exists :
      missing_codes codes (with_codes env codes db) ≡ []
      → (code : String) → contains code codes ≡ true
      → any (λ p. str_eq p.code code) db.permissions ≡ true
  code_exists none_missing code asked =
      let found = with_codes env codes db in
      let listed =
        found_of_not_missing codes (map (λ p. p.code) found) code
          (any_of_select-nil (λ c. not (contains c (map (λ p. p.code) found))) codes none_missing)
          asked in
      let kept : any (λ p. contains p.code codes && str_eq p.code code) db.permissions ≡ true =
        sym (any-select (λ p. str_eq p.code code) (λ p. contains p.code codes) db.permissions)
        ∙ ap (any (λ p. str_eq p.code code)) (sym (env.permissions.filter_lem _ db.permissions))
        ∙ sym (any-map (λ c. str_eq c code) (λ p. p.code) found)
        ∙ listed in
      any_weaken (λ p. contains p.code codes) (λ p. str_eq p.code code) db.permissions kept

  -- After `set`, the role grants a code exactly if it was asked for.
  pub granted_codes :
      (role : ℕ) (grants : List Grant)
      → Distinct permission_clash db.permissions
      → missing_codes codes (with_codes env codes db) ≡ []
      → (code : String)
      → grants_code
          (record db { grants = env.set_permissions role (ids (with_codes env codes db)) grants })
          role
          code
        ≡ contains code codes
  granted_codes role grants d none_missing code =
      let found = with_codes env codes db in
      let asked = λ (p : Permission). contains p.code codes in
      let named = λ (p : Permission). str_eq p.code code in
      sym (
        grants-granted (record db { grants = env.set_permissions role (ids found) grants }) role
          code)
      ∙ any_congr _ (λ p. has_id p.id (ids found) && named p) db.permissions
          (λ p.
            ap (λ b. b && named p)
              (env.set_permissions_lem role (ids found) grants role p.id ∙ rw (==_refl role) refl))
      ∙ ap (λ l. any (λ p. has_id p.id (ids l) && named p) db.permissions)
          (env.permissions.filter_lem asked db.permissions)
      ∙ any_congr-All (λ p. has_id p.id (ids (select asked db.permissions))) asked named
          db.permissions (ids-select asked db.permissions d)
      ∙ any_congr _ (λ p. contains code codes && named p) db.permissions (λ p. same_code p)
      ∙ any_and (contains code codes) named db.permissions
      ∙ and_implied (contains code codes) _ (code_exists none_missing code)
    where
      same_code :
          (p : Permission)
          → (contains p.code codes && str_eq p.code code)
            ≡ (contains code codes && str_eq p.code code)
      same_code p = elim (Bool-cases (str_eq p.code code)) [
        | inl same ↦ let e : p.code ≡ code = (eq_iff p.code code).0 same in rw e refl
        | inr other ↦ ground arith
      ]
