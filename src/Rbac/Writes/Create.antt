-- ===== src/Rbac/Writes/Create.antt =====
-- What `create_role` promises on each branch: a slug that is taken is a conflict, an unknown code
-- undoes the role, and otherwise the role stands in its tenant and grants the codes asked for.
use godown_rbac_system.Prelude.{
  ℕ, String, true, false, not, List, [], ◌∷◌, Option, some, ◌≡◌, refl, sym, subst, ◌∙◌, inl, inr,
  ◌==◌, any, contains, All, arith, Bool-cases, ==_refl,
}
use godown_rbac_system.Orm.{Inserts}
use godown_rbac_system.Orm.Laws.{
  exists_lem, any_congr, select_all, select-insert_other, any_implied,
}
use godown_rbac_system.Orm.Distinct.{Distinct}
use godown_rbac_system.Models.{Tenant, Role, UserTenantRole, permission_clash}
use godown_rbac_system.World.{
  World, Env, pure, Result, ok, err, proceed, conflict, validation, role_exists, unknown_codes,
  granted,
}
use godown_rbac_system.Rbac.Queries.{grants_code}
use godown_rbac_system.Rbac.Consistent.{IsScoped, is_its_role}
use godown_rbac_system.Rbac.Writes.{
  has_slug, delete_role, grant_codes, create_role, missing_codes, with_codes,
}
use godown_rbac_system.Rbac.Writes.Insert as Insert
use godown_rbac_system.Rbac.Writes.Insert.{new_role_lem}
use godown_rbac_system.Rbac.Writes.Codes.{granted_codes}

module _ (env : Env) (t : Tenant) (name slug : String) (weight : ℕ) (w : World) where
  -- A role whose slug the tenant has is refused as a conflict, and nothing changes.
  pub create_role_taken :
      (codes : Option (List String))
      → any (has_slug t slug) w.db.roles ≡ true
      → create_role env t name slug weight codes w ≡ (err (conflict (role_exists slug t.name)), w)
  unfolding create_role
  create_role_taken codes taken = rw (exists_lem env.roles (has_slug t slug) w.db.roles, taken) refl

  abbrev pub fresh_role : Role
  fresh_role = Insert.fresh_role env t name slug weight false w

  abbrev with_row : List Role → World
  with_row rows = Insert.with_row env t name slug weight false w rows

  module _ (free : any (has_slug t slug) w.db.roles ≡ false)
      (unused : any (λ r. env.uuid4 w.ticks == r.id) w.db.roles ≡ false) where
    role_id_unused : any (λ r. r.id == env.uuid4 w.ticks) w.db.roles ≡ false
    role_id_unused =
        any_congr (λ r. r.id == env.uuid4 w.ticks) (λ r. env.uuid4 w.ticks == r.id) w.db.roles
          (λ r. ground arith)
        ∙ unused

    -- Deleting the row that was just inserted gives the table back.
    row_undone :
        (rows : List Role)
        → Inserts fresh_role w.db.roles (some rows)
        → env.roles.delete (λ r. r.id == env.uuid4 w.ticks) rows ≡ w.db.roles
    row_undone rows ins =
        env.roles.delete_lem (λ r. r.id == env.uuid4 w.ticks) rows
        ∙ select-insert_other (λ r. not (r.id == env.uuid4 w.ticks)) fresh_role w.db.roles rows ins
            (ground (arith, ==_refl (env.uuid4 w.ticks)))
        ∙ select_all (λ r. not (r.id == env.uuid4 w.ticks)) w.db.roles
            (any_congr (λ r. not (not (r.id == env.uuid4 w.ticks))) (λ r. r.id == env.uuid4 w.ticks)
                w.db.roles (λ r. ground arith)
              ∙ role_id_unused)

    member_elsewhere :
        (m : UserTenantRole) → IsScoped w.db.roles m → (m.role == env.uuid4 w.ticks) ≡ false
    member_elsewhere m h = elim (Bool-cases (m.role == env.uuid4 w.ticks)) [
      | inr other ↦ other
      | inl same ↦
          let listed : any (λ r. r.id == env.uuid4 w.ticks) w.db.roles ≡ true =
            any_implied (is_its_role m) (λ r. r.id == env.uuid4 w.ticks) w.db.roles
              (λ r k. ground arith) h in
          let absent = role_id_unused in cc
    ]

    no_member :
        (ms : List UserTenantRole)
        → All (IsScoped w.db.roles) ms
        → any (λ m. m.role == env.uuid4 w.ticks) ms ≡ false
    no_member [] h = refl
    no_member (m ∷ ms) h = rw (member_elsewhere m h.0) (no_member ms h.1)

    members_undone :
        (ms : List UserTenantRole)
        → All (IsScoped w.db.roles) ms
        → env.memberships.delete (λ m. m.role == env.uuid4 w.ticks) ms ≡ ms
    members_undone ms h =
        env.memberships.delete_lem (λ m. m.role == env.uuid4 w.ticks) ms
        ∙ select_all (λ m. not (m.role == env.uuid4 w.ticks)) ms
            (any_congr (λ m. not (not (m.role == env.uuid4 w.ticks)))
                (λ m. m.role == env.uuid4 w.ticks) ms (λ m. ground arith)
              ∙ no_member ms h)

    -- What a refused role leaves: the roles, the assignments and the grants as they were.
    pub record IsUndone (m : String) (ms : List String) (out : Result Role × World) : Type 0 where
      pub refused : out.0 ≡ err (validation (unknown_codes (m ∷ ms)))
      pub roles : out.1.db.roles ≡ w.db.roles
      pub memberships : out.1.db.memberships ≡ w.db.memberships
      pub grants :
          (r p : ℕ)
          → (env.uuid4 w.ticks == r) ≡ false
          → granted r p out.1.db.grants ≡ granted r p w.db.grants

    -- The call as far as the INSERT.
    create_role_run :
        (codes : Option (List String))
        → (rows : List Role) × Inserts fresh_role w.db.roles (some rows)
          × (create_role env t name slug weight codes w
              ≡ proceed (λ _. pure fresh_role) (grant_codes env fresh_role codes (with_row rows)))
    unfolding create_role
    create_role_run codes =
        let (rows, ins, e) = new_role_lem env t name slug weight false w free unused in
        (rows, ins, rw (exists_lem env.roles (has_slug t slug) w.db.roles, free, e) refl)

    set_kept :
        (ids : List ℕ) (r p : ℕ)
        → (env.uuid4 w.ticks == r) ≡ false
        → granted r p (env.set_permissions (env.uuid4 w.ticks) ids w.db.grants)
          ≡ granted r p w.db.grants
    set_kept ids r p other =
        rw (env.set_permissions_lem (env.uuid4 w.ticks) ids w.db.grants r p, other) refl

    undone :
        (rows : List Role) (c : String) (cs : List String) (m : String) (ms : List String)
        → Inserts fresh_role w.db.roles (some rows)
        → All (IsScoped w.db.roles) w.db.memberships
        → missing_codes (c ∷ cs) (with_codes env (c ∷ cs) w.db) ≡ m ∷ ms
        → IsUndone m ms (
            proceed
              (λ _. pure fresh_role)
              (grant_codes env fresh_role (some (c ∷ cs)) (with_row rows)))
    unfolding grant_codes delete_role
    undone rows c cs m ms ins scoped lacks = rw lacks (record {
      refused = refl;
      roles = row_undone rows ins;
      memberships = members_undone w.db.memberships scoped;
      grants = set_kept [];
    })

    -- If the slug is free and the new key is unused, a role with codes of which some have no
    -- permission is refused with those codes, and the roles, the assignments and the grants of all
    -- other roles are as before.
    pub create_role_unknown :
        (c : String) (cs : List String) (m : String) (ms : List String)
        → All (IsScoped w.db.roles) w.db.memberships
        → missing_codes (c ∷ cs) (with_codes env (c ∷ cs) w.db) ≡ m ∷ ms
        → IsUndone m ms (create_role env t name slug weight (some (c ∷ cs)) w)
    create_role_unknown c cs m ms scoped lacks =
        let (rows, ins, e) = create_role_run (some (c ∷ cs)) in
        subst (IsUndone m ms) (sym e) (undone rows c cs m ms ins scoped lacks)

    -- What a role that is created leaves: a new row, and the codes asked for.
    pub record IsCreated (asked : List String) (out : Result Role × World) : Type 0 where
      pub created : out.0 ≡ ok fresh_role
      pub inserted : Inserts fresh_role w.db.roles (some out.1.db.roles)
      pub memberships : out.1.db.memberships ≡ w.db.memberships
      pub codes : (code : String) → grants_code out.1.db fresh_role.id code ≡ contains code asked
      pub others :
          (r p : ℕ)
          → (env.uuid4 w.ticks == r) ≡ false
          → granted r p out.1.db.grants ≡ granted r p w.db.grants

    all_granted :
        (rows : List Role) (c : String) (cs : List String)
        → Inserts fresh_role w.db.roles (some rows)
        → Distinct permission_clash w.db.permissions
        → missing_codes (c ∷ cs) (with_codes env (c ∷ cs) w.db) ≡ []
        → IsCreated (c ∷ cs) (
            proceed
              (λ _. pure fresh_role)
              (grant_codes env fresh_role (some (c ∷ cs)) (with_row rows)))
    unfolding grant_codes
    all_granted rows c cs ins d all_there = rw all_there (record {
      created = refl;
      inserted = ins;
      memberships = refl;
      codes = granted_codes env (c ∷ cs) w.db fresh_role.id w.db.grants d all_there;
      others = set_kept _;
    })

    -- If the slug is free, the new key is unused and every code has a permission, the role is
    -- created beside the old ones, grants exactly the codes asked for, and changes no assignment and
    -- no other role's grants.
    pub create_role_granted :
        (c : String) (cs : List String)
        → Distinct permission_clash w.db.permissions
        → missing_codes (c ∷ cs) (with_codes env (c ∷ cs) w.db) ≡ []
        → IsCreated (c ∷ cs) (create_role env t name slug weight (some (c ∷ cs)) w)
    create_role_granted c cs d all_there =
        let (rows, ins, e) = create_role_run (some (c ∷ cs)) in
        subst (IsCreated (c ∷ cs)) (sym e) (all_granted rows c cs ins d all_there)
