-- ===== src/Rbac/Views/Guards.antt =====
-- Who may change a tenant's roles and flags through the views: the permission classes let through
-- exactly the callers that hold one of the roles asked for, in the tenant of the URL.
use godown_rbac_system.Prelude.{
  ℕ, String, Bool, true, false, ◌&&◌, List, [], ◌∷◌, some, ◌≡◌, refl, sym, ap, ◌⊎◌, ◌∙◌, inl, inr,
  ◌==◌, select, any, arith,
}
use godown_rbac_system.Orm.Laws.{any-select, any-eq-false}
use godown_rbac_system.Orm.Distinct.{Distinct, IsKey, select_key}
use godown_rbac_system.Models.{User, Caller, anonymous, signed_in, Tenant, tenant_clash}
use godown_rbac_system.World.{
  World, Db, Env, Result, ok, err, Exc, Action, pure, proceed, ◌>>◌, not_authenticated,
  permission_denied,
}
use godown_rbac_system.Http.{Request, Response, failure}
use godown_rbac_system.Common.Errors.{status_of, respond}
use godown_rbac_system.Common.Gate.{allow}
use godown_rbac_system.Rbac.Queries.{has_role}
use godown_rbac_system.Rbac.Gate.{has_role_permission}
use godown_rbac_system.Rbac.Views.{admit}

abbrev pub refusal : Caller → Exc
refusal anonymous = not_authenticated
refusal (signed_in u) = permission_denied

abbrev pub admitted : Caller → Bool → Result (Unit {0})
admitted user true = ok tt
admitted user false = err (refusal user)

-- The status of a refusal.
abbrev pub refused_with : Caller → ℕ
refused_with anonymous = 401
refused_with (signed_in u) = 403

pub tenant_id-IsKey : (k : ℕ) → IsKey tenant_clash (λ t. t.id == k)
tenant_id-IsKey k s t p q = ground arith

decided :
    (u : User) (b : Bool) (w : World)
    → proceed (λ _. pure tt) (allow (signed_in u) b w) ≡ (admitted (signed_in u) b, w)
decided u true w = refl
decided u false w = refl

refusal_status : (c : Caller) → status_of (refusal c) ≡ refused_with c
unfolding status_of
refusal_status anonymous = refl
refusal_status (signed_in u) = refl

pub Caller-cases : (c : Caller) → (c ≡ anonymous) ⊎ ((u : User) × (c ≡ signed_in u))
Caller-cases anonymous = inl refl
Caller-cases (signed_in u) = inr (u, refl)

module _ (env : Env) (request : Request) (id : ℕ) where
  -- Is there a tenant with this id in which the caller has one of the roles?
  abbrev pub may : List String → Db → Bool
  may roles db = any (λ t. t.id == id && has_role env (some request.user) t roles db) db.tenants

  module _ (w : World) (d : Distinct tenant_clash w.db.tenants) where
    pub may_none :
        (roles : List String) → select (λ t. t.id == id) w.db.tenants ≡ [] → may roles w.db ≡ false
    may_none roles none_there =
        sym (
          any-select (λ t. has_role env (some request.user) t roles w.db) (λ t. t.id == id)
            w.db.tenants)
        ∙ rw none_there refl

    pub may_one :
        (roles : List String) (t : Tenant)
        → select (λ t. t.id == id) w.db.tenants ≡ t ∷ []
        → may roles w.db ≡ has_role env (some request.user) t roles w.db
    may_one roles t there =
        sym (
          any-select (λ t. has_role env (some request.user) t roles w.db) (λ t. t.id == id)
            w.db.tenants)
        ∙ rw there (ground arith)

    pub may_anonymous : (roles : List String) → request.user ≡ anonymous → may roles w.db ≡ false
    unfolding has_role
    may_anonymous roles e = any-eq-false _ w.db.tenants (λ t. rw e (ground arith))

    admit_one :
        (role : String) (roles : List String) (u : User) (t : Tenant)
        → request.user ≡ signed_in u
        → select (λ t. t.id == id) w.db.tenants ≡ t ∷ []
        → admit env request id (role ∷ roles) w
          ≡ (admitted request.user (may (role ∷ roles) w.db), w)
    unfolding admit has_role_permission
    admit_one role roles u t e there =
        rw
          (
            may_one (role ∷ roles) t there,
            e,
            env.tenants.filter_lem (λ t. t.id == id) w.db.tenants,
            there,
          )
          (decided u (has_role env (some (signed_in u)) t (role ∷ roles) w.db) w)

    admit_none :
        (role : String) (roles : List String) (u : User)
        → request.user ≡ signed_in u
        → select (λ t. t.id == id) w.db.tenants ≡ []
        → admit env request id (role ∷ roles) w
          ≡ (admitted request.user (may (role ∷ roles) w.db), w)
    unfolding admit has_role_permission
    admit_none role roles u e none_there =
        rw
          (
            may_none (role ∷ roles) none_there,
            e,
            env.tenants.filter_lem (λ t. t.id == id) w.db.tenants,
            none_there,
          )
          refl

    admit_anonymous :
        (role : String) (roles : List String)
        → request.user ≡ anonymous
        → admit env request id (role ∷ roles) w
          ≡ (admitted request.user (may (role ∷ roles) w.db), w)
    unfolding admit
    admit_anonymous role roles e = rw (may_anonymous (role ∷ roles) e, e) refl

    -- The permission classes admit exactly the callers that may, and change nothing.
    pub admit_lem :
        (role : String) (roles : List String)
        → admit env request id (role ∷ roles) w
          ≡ (admitted request.user (may (role ∷ roles) w.db), w)
    admit_lem role roles = elim (Caller-cases request.user) [
      | inl e ↦ admit_anonymous role roles e
      | inr (u, e) ↦
          elim (select_key tenant_clash (λ t. t.id == id) w.db.tenants (tenant_id-IsKey id) d) [
            | inl none_there ↦ admit_none role roles u e none_there
            | inr (t, there) ↦ admit_one role roles u t e there
          ]
    ]

    -- A view behind the permission classes, called by someone they do not admit.
    pub view_refused :
        {A : Type 0} (role : String) (roles : List String) (view : Action (Response A))
        → may (role ∷ roles) w.db ≡ false
        → respond (admit env request id (role ∷ roles) >> view) w
          ≡ (failure (refused_with request.user), w)
    unfolding respond
    view_refused role roles view denied =
        rw (admit_lem role roles, denied) (ap (λ n. (failure n, w)) (refusal_status request.user))
