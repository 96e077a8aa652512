-- ===== src/Demo/Granted.antt =====
-- What the loop over the roles of a tenant leaves: each role has the permissions of its slug.
use godown_rbac_system.Prelude.{
  ℕ, String, Bool, false, List, [], ◌∷◌, Option, none, some, ◌≡◌, refl, sym, ap, ◌∙◌, inl, inr, map,
  ◌==◌, ==_refl, str_eq, eq_iff, and-true, select, any, All, arith, Option-cases, Bool-cases,
}
use godown_rbac_system.Orm.Laws.{select_hit, any_congr}
use godown_rbac_system.Orm.Distinct.{Distinct, select_self}
use godown_rbac_system.Models.{Tenant, Permission, Role, role_clash}
use godown_rbac_system.World.{World, Db, Env, ok, granted, has_id}
use godown_rbac_system.Dict.{lookup}
use godown_rbac_system.Rbac.Writes.{has_slug, default_roles}
use godown_rbac_system.Rbac.Consistent.{role_id-IsKey}
use godown_rbac_system.Rbac.Writes.Defaults.{AllHeld}
use godown_rbac_system.Demo.Permissions.{
  role_permissions_mapping, codes_or_empty, known, role_perms, map_permissions,
}

abbrev pub is_key : ℕ → Option Permission → Bool
is_key k none = false
is_key k (some p) = p.id == k

-- Does one of the codes name the permission with the key `k`?
abbrev pub names : List (String × Permission) → List String → ℕ → Bool
names perms codes k = any (λ code. is_key k (lookup code perms)) codes

known_lem :
    (perms : List (String × Permission)) (codes : List String) (k : ℕ)
    → has_id k (map (λ p. p.id) (known perms codes)) ≡ names perms codes k
unfolding known
known_lem perms [] k = refl
known_lem perms (code ∷ codes) k = elim (Option-cases (lookup code perms)) [
  | inl absent ↦ rw absent (known_lem perms codes k)
  | inr (p, there) ↦ rw (there, known_lem perms codes k) refl
]

abbrev pub codes_of_slug : String → List String
codes_of_slug slug = codes_or_empty (lookup slug role_permissions_mapping)

abbrev same_id : Role → Role → Bool
same_id r s = r.id == s.id

module _ (env : Env) (perms : List (String × Permission)) where
  pub map_permissions_roles :
      (roles : List Role) (w : World) → (map_permissions env perms roles w).1.db.roles ≡ w.db.roles
  unfolding map_permissions
  map_permissions_roles [] w = refl
  map_permissions_roles (role ∷ roles) w = map_permissions_roles roles _

  pub map_permissions_ok :
      (roles : List Role) (w : World) → (map_permissions env perms roles w).0 ≡ ok tt
  unfolding map_permissions
  map_permissions_ok [] w = refl
  map_permissions_ok (role ∷ roles) w = map_permissions_ok roles _

  granted_other :
      (roles : List Role) (w : World) (r p : ℕ)
      → any (λ s. s.id == r) roles ≡ false
      → granted r p (map_permissions env perms roles w).1.db.grants ≡ granted r p w.db.grants
  unfolding map_permissions
  granted_other [] w r p h = refl
  granted_other (role ∷ roles) w r p h =
      granted_other roles _ r p (ground arith)
      ∙ env.set_permissions_lem role.id (map (λ q. q.id) (role_perms perms role)) w.db.grants r p
      ∙ ground arith

  granted-All :
      (roles : List Role) (w : World)
      → Distinct same_id roles
      → All
          (λ r.
            (k : ℕ)
            → granted r.id k (map_permissions env perms roles w).1.db.grants
              ≡ names perms (codes_of_slug r.slug) k)
          roles
  unfolding map_permissions
  granted-All [] w d = tt
  granted-All (role ∷ roles) w d = (head, granted-All roles _ d.1)
    where
      head :
          (k : ℕ)
          → granted role.id k (map_permissions env perms (role ∷ roles) w).1.db.grants
            ≡ names perms (codes_of_slug role.slug) k
      head k =
          granted_other roles _ role.id k
            (any_congr (λ s. s.id == role.id) (same_id role) roles (λ s. ground arith) ∙ d.0)
          ∙ env.set_permissions_lem role.id (map (λ q. q.id) (role_perms perms role)) w.db.grants
              role.id k
          ∙ rw (==_refl role.id) (known_lem perms (codes_of_slug role.slug) k)

-- The role of the slug is there, and has the permissions that the codes name and no others.
abbrev pub IsMapped : List (String × Permission) → Tenant → Db → String × List String → Type 0
IsMapped perms t db (slug, codes) =
    (r : Role) × (select (has_slug t slug) db.roles ≡ r ∷ [])
    × ((k : ℕ) → granted r.id k db.grants ≡ names perms codes k)

module _ (t : Tenant) (rs : List Role) (d : Distinct role_clash rs) where
  slug_of_held : (slug : String) (r : Role) → select (has_slug t slug) rs ≡ r ∷ [] → r.slug ≡ slug
  slug_of_held slug r e =
      (eq_iff r.slug slug).0 (and-true _ _ (select_hit (has_slug t slug) rs r [] e)).1

  -- Roles of two slugs have two keys.
  apart :
      (a b : String) (r s : Role)
      → str_eq a b ≡ false
      → select (has_slug t a) rs ≡ r ∷ []
      → select (has_slug t b) rs ≡ s ∷ []
      → (r.id == s.id) ≡ false
  apart a b r s differ e f = elim (Bool-cases (r.id == s.id)) [
    | inr other ↦ other
    | inl same ↦
        let first : select (λ x. x.id == r.id) rs ≡ r ∷ [] =
          select_self role_clash (has_slug t a) (λ x. x.id == r.id) rs r (role_id-IsKey r.id)
            (==_refl r.id) d e in
        let second : select (λ x. x.id == r.id) rs ≡ s ∷ [] =
          select_self role_clash (has_slug t b) (λ x. x.id == r.id) rs s (role_id-IsKey r.id)
            (ground arith) d f in
        let one : r ≡ s = cc in
        let slugs : a ≡ b = sym (slug_of_held a r e) ∙ ap (λ x. x.slug) one ∙ slug_of_held b s f in
        let equal = (eq_iff a b).1 slugs in cc
  ]

module _ (env : Env) (distinct_keys : (i j : ℕ) → env.uuid4 i ≡ env.uuid4 j → i ≡ j)
    (perms : List (String × Permission)) (t : Tenant) (w : World)
    (d : Distinct role_clash w.db.roles) where
  IsMapped-one :
      (rs : List Role) (slug : String) (r : Role)
      → select (has_slug t slug) w.db.roles ≡ r ∷ []
      → ((k : ℕ)
          → granted r.id k (map_permissions env perms rs w).1.db.grants
            ≡ names perms (codes_of_slug r.slug) k)
      → IsMapped perms t (map_permissions env perms rs w).1.db (slug, codes_of_slug slug)
  IsMapped-one rs slug r e h = (
    r,
    rw (map_permissions_roles env perms rs w) e,
    (λ k. rw (← slug_of_held t w.db.roles d slug r e) (h k)),
  )

  pub map_permissions-IsMapped :
      (rs : List Role)
      → AllHeld env t distinct_keys w default_roles rs
      → All (IsMapped perms t (map_permissions env perms rs w).1.db) role_permissions_mapping
  map_permissions-IsMapped [] h = elim h [ ]
  map_permissions-IsMapped (a ∷ []) h = elim h.1 [ ]
  map_permissions-IsMapped (a ∷ b ∷ []) h = elim h.1.1 [ ]
  map_permissions-IsMapped (a ∷ b ∷ c ∷ r ∷ rs) h = elim h.1.1.1 [ ]
  map_permissions-IsMapped (a ∷ b ∷ c ∷ []) h =
      let ab = apart t w.db.roles d "owner" "admin" a b refl h.0 h.1.0 in
      let ac = apart t w.db.roles d "owner" "member" a c refl h.0 h.1.1.0 in
      let bc = apart t w.db.roles d "admin" "member" b c refl h.1.0 h.1.1.0 in
      let all =
        granted-All env perms (a ∷ b ∷ c ∷ []) w (ground arith, (ground arith, (refl, tt))) in
      (
        IsMapped-one (a ∷ b ∷ c ∷ []) "owner" a h.0 all.0,
        (
          IsMapped-one (a ∷ b ∷ c ∷ []) "admin" b h.1.0 all.1.0,
          (IsMapped-one (a ∷ b ∷ c ∷ []) "member" c h.1.1.0 all.1.1.0, tt),
        ),
      )
