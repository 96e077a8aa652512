-- ===== src/Rbac/Views/Assigning.antt =====
-- A POST that assigns a role, from the request to what the user may do afterwards.
use godown_rbac_system.Prelude.{ℕ, true, [], ◌∷◌, some, ◌≡◌, refl, ap, ◌∙◌, select, any, ◌==◌}
use godown_rbac_system.Orm.Distinct.{Distinct}
use godown_rbac_system.Models.{User, signed_in, Tenant, UserTenantRole, tenant_clash}
use godown_rbac_system.World.{World, Env, Result, ok, err, pure, proceed}
use godown_rbac_system.Http.{Request, success}
use godown_rbac_system.Common.Errors.{respond, answered}
use godown_rbac_system.Rbac.Queries.{get_role}
use godown_rbac_system.Rbac.Writes.{has_slug}
use godown_rbac_system.Rbac.Consistent.{IsConsistent}
use godown_rbac_system.Rbac.Assign.{assign_role}
use godown_rbac_system.Rbac.Assign.Upsert.{IsUnused}
use godown_rbac_system.Rbac.Assign.Correct.{assign_role-get_role}
use godown_rbac_system.Rbac.Views.{RoleAssign, admins, post_assign, validate_user_id}
use godown_rbac_system.Rbac.Views.Guards.{may, admit_lem}

answered_ok :
    {A : Type 0} (status : ℕ) (r : Result A × World) (a : A)
    → r.0 ≡ ok a
    → answered (proceed (λ x. pure (success status x)) r) ≡ (success status a, r.1)
answered_ok status (ok b, w) a e = let same : b ≡ a = cc in rw same refl
answered_ok status (err x, w) a e = cc

module _ (env : Env) (request : Request) (caller : User) (t : Tenant) (u : User) (body : RoleAssign)
    (w : World) (signed : request.user ≡ signed_in caller)
    (tenants : Distinct tenant_clash w.db.tenants)
    (there : select (λ s. s.id == t.id) w.db.tenants ≡ t ∷ [])
    (target : select (λ v. v.id == body.user_id) w.db.users ≡ u ∷ []) (good : IsConsistent w.db)
    (unused : IsUnused (env.uuid4 w.ticks) w.db.memberships) where
  post_assign_run :
      may env request t.id admins w.db ≡ true
      → respond (post_assign env request t.id (some body)) w
        ≡ answered
            (proceed (λ m. pure (success 201 m)) (assign_role env u t body.role (some caller) w))
  unfolding respond post_assign validate_user_id
  post_assign_run allowed =
      rw
        (
          admit_lem env request t.id w tenants "owner" ("admin" ∷ []),
          allowed,
          env.tenants.filter_lem (λ s. s.id == t.id) w.db.tenants,
          there,
          env.users.filter_lem (λ v. v.id == body.user_id) w.db.users,
          target,
          signed,
        )
        refl

  -- In consistent tables with distinct tenants, and with a new key that is unused, an owner or
  -- admin of the tenant who assigns one of its roles to a user is answered with 201 and an
  -- assignment that names the caller, and get_role then returns that role for the user.
  pub post_assign-get_role :
      may env request t.id admins w.db ≡ true
      → any (has_slug t body.role) w.db.roles ≡ true
      → (m : UserTenantRole) × ((respond (post_assign env request t.id (some body)) w).0
          ≡ success 201 m)
        × (m.assigned_by ≡ some caller.id)
        × ((get_role env u t (respond (post_assign env request t.id (some body)) w).1).0
            ≡ ok (some body.role))
  post_assign-get_role allowed known =
      let (m, done, by, role) =
        assign_role-get_role env u t body.role (some caller) w good unused known in
      let run =
        post_assign_run allowed
        ∙ answered_ok 201 (assign_role env u t body.role (some caller) w) m done in
      (m, ap (λ x. x.0) run, by, rw run role)
