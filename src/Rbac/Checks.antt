-- ===== src/Rbac/Checks.antt =====
-- The boolean checks `has_role` and `has_permission` agree with the queries that return the role
-- and its permissions: one is a single SQL join, the others fetch the row.
use godown_rbac_system.Prelude.{
  ℕ, String, Bool, false, ◌&&◌, ◌||◌, List, [], ◌∷◌, Option, none, some, ◌≡◌, refl, sym, ap, ◌∙◌,
  inl, inr, ◌⊎◌, any-append, map, ◌==◌, str_eq, select, any, contains, arith, Bool-cases,
}
use mathlib.Core.Path.{ap₂}
use godown_rbac_system.Orm.{one, exists}
use godown_rbac_system.Orm.Laws.{exists_lem, any-select, any_congr, any_or, any-map, any_and}
use godown_rbac_system.Orm.Distinct.{Distinct, select_key}
use godown_rbac_system.Models.{
  User, signed_in, Tenant, Permission, Role, Grant, UserTenantRole, role_clash, membership_clash,
}
use godown_rbac_system.World.{World, Db, Env, Result, ok, err, granted}
use godown_rbac_system.Rbac.Queries.{
  with_role, in_tenant, grants_code, codes_of, membership_of, get_role, has_role, has_permission,
  get_user_permissions,
}
use godown_rbac_system.Rbac.Consistent.{IsConsistent, role_id-IsKey, in_tenant-IsKey}

-- What a caller reads off a result.
abbrev pub role_listed : List String → Result (Option String) → Bool
role_listed roles (ok (some slug)) = contains slug roles
role_listed roles (ok none) = false
role_listed roles (err _) = false

abbrev pub code_listed : String → Result (List String) → Bool
code_listed code (ok codes) = contains code codes
code_listed code (err _) = false

any_swap :
    {A B : Type 0} (p : A → B → Bool) (xs : List A) (ys : List B)
    → any (λ x. any (p x) ys) xs ≡ any (λ y. any (λ x. p x y) xs) ys
any_swap p [] [] = refl
any_swap p [] (y ∷ ys) = any_swap p [] ys
any_swap p (x ∷ xs) ys =
    ap (λ b. any (p x) ys || b) (any_swap p xs ys)
    ∙ sym (any_or (p x) (λ y. any (λ z. p z y) xs) ys)

and_any {ℓ} :
    {A : Type ℓ} (b : Bool) (p : A → Bool) (xs : List A) → any (λ x. p x && b) xs ≡ (any p xs && b)
and_any b p [] = refl
and_any b p (x ∷ xs) = ground (arith, and_any b p xs)

-- The join through the grants can be read from the permissions' end or from the role's.
pub grants-granted :
    (db : Db) (role : ℕ) (code : String)
    → any (λ p. granted role p.id db.grants && str_eq p.code code) db.permissions
      ≡ grants_code db role code
grants-granted db role code =
    any_congr _ _ db.permissions (λ p.
      sym (and_any (str_eq p.code code) (λ g. g.role == role && g.permission == p.id) db.grants))
    ∙ sym (any_swap hit db.grants db.permissions)
    ∙ any_congr _ _ db.grants (λ g.
      any_congr (hit g) (λ p. g.role == role && (p.id == g.permission && str_eq p.code code))
        db.permissions (λ p. ground arith)
      ∙ any_and (g.role == role) (λ p. p.id == g.permission && str_eq p.code code) db.permissions)
  where
    hit : Grant → Permission → Bool
    hit g p = (g.role == role && g.permission == p.id) && str_eq p.code code

or_false : (b : Bool) → (b || false) ≡ b
or_false b = ground arith

any-with_role :
    (q : Role → Bool) (roles : List Role) (ms : List UserTenantRole)
    → any (λ e. q e.1) (with_role roles ms) ≡ any (λ m. any (λ r. r.id == m.role && q r) roles) ms
any-with_role q roles [] = refl
any-with_role q roles (m ∷ ms) =
    any-append (λ e. q e.1) (map (λ r. (m, r)) (select (λ r. r.id == m.role) roles)) _
    ∙ ap₂ ◌||◌ (any-map (λ e. q e.1) (λ r. (m, r)) _ ∙ any-select q (λ r. r.id == m.role) roles)
        (any-with_role q roles ms)

-- The join of one membership with distinct roles has one row at most.
with_role_one :
    (roles : List Role) (m : UserTenantRole)
    → Distinct role_clash roles
    → (with_role roles (m ∷ []) ≡ []) ⊎ ((r : Role) × (with_role roles (m ∷ []) ≡ (m, r) ∷ []))
with_role_one roles m d =
    elim (select_key role_clash (λ r. r.id == m.role) roles (role_id-IsKey m.role) d) [
      | inl e ↦ inl (rw e refl)
      | inr (r, e) ↦ inr (r, rw e refl)
    ]

module _ (env : Env) (u : User) (t : Tenant) (db : Db) where
  abbrev pub joined : List (UserTenantRole × Role)
  joined = with_role db.roles (select (in_tenant u t) db.memberships)

  pub joined_cases :
      IsConsistent db → (joined ≡ []) ⊎ ((e : UserTenantRole × Role) × (joined ≡ e ∷ []))
  joined_cases good =
      elim (select_key membership_clash (in_tenant u t) db.memberships (in_tenant-IsKey u t)
        good.memberships) [
          | inl e ↦ inl (rw e refl)
          | inr (m, e) ↦ elim (with_role_one db.roles m good.roles) [
            | inl k ↦ inl (rw e k)
            | inr (r, k) ↦ inr ((m, r), rw e k)
          ]
        ]

  pub membership_of_lem : membership_of env u t db ≡ one joined
  membership_of_lem =
      ap (λ ms. one (with_role db.roles ms)) (env.memberships.filter_lem (in_tenant u t) _)

  -- The join of a check, row by row of the join of the query.
  pub exists-joined :
      (q : Role → Bool)
      → exists env.memberships
          (λ m. in_tenant u t m && any (λ r. r.id == m.role && q r) db.roles)
          db.memberships
        ≡ any (λ e. q e.1) joined
  exists-joined q =
      exists_lem env.memberships _ _
      ∙ sym (any-select (λ m. any (λ r. r.id == m.role && q r) db.roles) (in_tenant u t) _)
      ∙ sym (any-with_role q db.roles _)

  -- The permissions that a role is granted, by the check's join and by the query's.
  pub contains-codes_of :
      (r : Role) (code : String) → contains code (codes_of env db r) ≡ grants_code db r.id code
  contains-codes_of r code =
      any-map (λ c. str_eq c code) (λ p. p.code) _
      ∙ ap (any (λ p. str_eq p.code code)) (env.permissions.filter_lem _ _)
      ∙ any-select (λ p. str_eq p.code code) _ db.permissions
      ∙ grants-granted db r.id code

module _ (env : Env) (u : User) (t : Tenant) (db : Db) where
  -- The checks over the join, with no word on its size.
  pub has_role_lem :
      (roles : List String)
      → has_role env (some (signed_in u)) t roles db
        ≡ (u.is_superuser || any (λ e. contains e.1.slug roles) (joined env u t db))
  unfolding has_role
  has_role_lem roles = elim (Bool-cases u.is_superuser) [
    | inl super ↦ rw super refl
    | inr plain ↦ rw plain (exists-joined env u t db (λ r. contains r.slug roles))
  ]

  pub has_permission_lem :
      (code : String)
      → has_permission env (some (signed_in u)) t code db
        ≡ (u.is_superuser || any (λ e. grants_code db e.1.id code) (joined env u t db))
  unfolding has_permission
  has_permission_lem code = elim (Bool-cases u.is_superuser) [
    | inl super ↦ rw super refl
    | inr plain ↦ rw plain (exists-joined env u t db (λ r. grants_code db r.id code))
  ]

-- The checks of a user in a tenant read the user's memberships there and the tables of roles.
pub same_checks :
    (env : Env) (u : User) (t : Tenant) (db db' : Db)
    → select (in_tenant u t) db'.memberships ≡ select (in_tenant u t) db.memberships
    → db'.roles ≡ db.roles
    → db'.grants ≡ db.grants
    → db'.permissions ≡ db.permissions
    → ((slugs : List String)
        → has_role env (some (signed_in u)) t slugs db'
          ≡ has_role env (some (signed_in u)) t slugs db)
      × ((code : String)
          → has_permission env (some (signed_in u)) t code db'
            ≡ has_permission env (some (signed_in u)) t code db)
same_checks env u t db db' ms rs gs ps =
    let same : joined env u t db' ≡ joined env u t db = ap₂ with_role rs ms in
    (
      (λ slugs. has_role_lem env u t db' slugs ∙ rw same (sym (has_role_lem env u t db slugs))),
      (λ code.
          has_permission_lem env u t db' code
          ∙ rw (same, gs, ps) (sym (has_permission_lem env u t db code))),
    )

module _ (env : Env) (u : User) (t : Tenant) (w : World) (good : IsConsistent w.db) where
  -- `has_role` says yes exactly to superusers and to users whose role, as `get_role` returns it,
  -- is among the slugs asked for, in tables that keep their constraints.
  pub has_role-get_role :
      (roles : List String)
      → has_role env (some (signed_in u)) t roles w.db
        ≡ (u.is_superuser || role_listed roles (get_role env u t w).0)
  unfolding get_role
  has_role-get_role roles =
      has_role_lem env u t w.db roles
      ∙ ap (λ b. u.is_superuser || b)
          (elim (joined_cases env u t w.db good) [
            | inl no_row ↦ rw (membership_of_lem env u t w.db, no_row) refl
            | inr (e, row) ↦ rw (membership_of_lem env u t w.db, row) (or_false _)
          ])

  -- `has_permission` says yes exactly to superusers and to users among whose permissions, as
  -- `get_user_permissions` returns them, the code is, in tables that keep their constraints.
  pub has_permission-get_user_permissions :
      (code : String)
      → has_permission env (some (signed_in u)) t code w.db
        ≡ (u.is_superuser || code_listed code (get_user_permissions env u t w).0)
  unfolding get_user_permissions
  has_permission-get_user_permissions code =
      has_permission_lem env u t w.db code
      ∙ ap (λ b. u.is_superuser || b)
          (elim (joined_cases env u t w.db good) [
            | inl no_row ↦ rw (membership_of_lem env u t w.db, no_row) refl
            | inr (e, row) ↦
                rw (membership_of_lem env u t w.db, row)
                  (or_false _ ∙ sym (contains-codes_of env u t w.db e.1 code))
          ])
