-- ===== src/Rbac/Views/Refusals.antt =====
-- The views that change roles, assignments and flags, called by someone who is neither owner nor
-- admin of the tenant of the URL.
use godown_rbac_system.Prelude.{
  ℕ, true, false, [], ◌∷◌, Option, ◌≡◌, refl, sym, ap, ◌∙◌, some, inl, inr, select, ◌==◌,
  Bool-cases,
}
use godown_rbac_system.Orm.Distinct.{Distinct, select_key}
use godown_rbac_system.Models.{User, signed_in, Tenant, tenant_clash}
use godown_rbac_system.World.{World, Env}
use godown_rbac_system.Http.{Request, failure}
use godown_rbac_system.Common.Errors.{respond}
use godown_rbac_system.Rbac.Queries.{has_role}
use godown_rbac_system.Rbac.Views.{
  RoleCreate, RoleAssign, admins, default_slugs, post_role, post_assign, post_revoke,
}
use godown_rbac_system.Rbac.Views.Guards.{
  may, may_one, may_none, may_anonymous, admit_lem, view_refused, refused_with, Caller-cases,
  tenant_id-IsKey,
}

module _ (env : Env) (request : Request) (id : ℕ) (w : World)
    (d : Distinct tenant_clash w.db.tenants) (denied : may env request id admins w.db ≡ false) where
  -- In a database whose tenants have distinct keys, an assignment by someone who is neither owner
  -- nor admin is answered with 401 or 403, and changes nothing.
  pub post_assign_denied :
      (body : Option RoleAssign)
      → respond (post_assign env request id body) w ≡ (failure (refused_with request.user), w)
  unfolding post_assign
  post_assign_denied body = view_refused env request id w d "owner" ("admin" ∷ []) _ denied

  -- In such a database, a revocation by someone who is neither owner nor admin is answered with 401
  -- or 403, and changes nothing.
  pub post_revoke_denied :
      (body : Option ℕ)
      → respond (post_revoke env request id body) w ≡ (failure (refused_with request.user), w)
  unfolding post_revoke
  post_revoke_denied body = view_refused env request id w d "owner" ("admin" ∷ []) _ denied

  post_role_member :
      (body : Option RoleCreate) (u : User) (t : Tenant)
      → request.user ≡ signed_in u
      → select (λ t. t.id == id) w.db.tenants ≡ t ∷ []
      → may env request id default_slugs w.db ≡ true
      → respond (post_role env request id body) w ≡ (failure (refused_with request.user), w)
  unfolding respond post_role
  post_role_member body u t e there member =
      let no_admin : has_role env (some (signed_in u)) t admins w.db ≡ false =
        ap (λ c. has_role env (some c) t admins w.db) (sym e)
        ∙ sym (may_one env request id w d admins t there)
        ∙ denied in
      rw
        (
          admit_lem env request id w d "owner" ("admin" ∷ "member" ∷ []),
          member,
          env.tenants.filter_lem (λ t. t.id == id) w.db.tenants,
          there,
          e,
          no_admin,
        )
        refl

  -- In such a database, a new role by someone who is neither owner nor admin is answered with 401 or
  -- 403, and changes nothing, although the permission class lets members through.
  pub post_role_denied :
      (body : Option RoleCreate)
      → respond (post_role env request id body) w ≡ (failure (refused_with request.user), w)
  unfolding post_role
  post_role_denied body = elim (Bool-cases (may env request id default_slugs w.db)) [
    | inr stranger ↦ view_refused env request id w d "owner" ("admin" ∷ "member" ∷ []) _ stranger
    | inl member ↦ elim (Caller-cases request.user) [
      | inl e ↦ let none_may = may_anonymous env request id w d default_slugs e in cc
      | inr (u, e) ↦
          elim (select_key tenant_clash (λ t. t.id == id) w.db.tenants (tenant_id-IsKey id) d) [
            | inl none_there ↦
                let none_may = may_none env request id w d default_slugs none_there in cc
            | inr (t, there) ↦ post_role_member body u t e there member
          ]
    ]
  ]
