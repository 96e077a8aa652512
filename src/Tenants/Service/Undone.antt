-- ===== src/Tenants/Service/Undone.antt =====
-- A call of `create_tenant` that raises leaves the tables as they were.
use godown_rbac_system.Prelude.{String, Bool, ◌≡◌, refl, ap, ◌∙◌, inl, inr, str_eq, Bool-cases}
use godown_rbac_system.Orm.{exists}
use godown_rbac_system.World.{World, Env, Result, ok, err, Exc, rolled_back, proceed}
use godown_rbac_system.Text.{strip}
use godown_rbac_system.Tenants.Service.{
  CreateTenantResult, hyphenate, is_slug, normalize_slug, validate_slug, register, register_free,
  create_tenant,
}

rolled_back_lem :
    {A : Type 0} (w : World) (r : Result A × World) (e : Exc)
    → (rolled_back w r).0 ≡ err e
    → (rolled_back w r).1.db ≡ w.db
rolled_back_lem w (ok a, w') e h = cc
rolled_back_lem w (err e', w') e h = refl

module _ (env : Env) (lower : String → String) (connected : Bool) (name schema host : String)
    (is_primary : Bool) (w : World) where
  -- `register` undoes both rows if either is refused.
  abbrev IsUndone : Result CreateTenantResult × World → Type 0
  IsUndone out = (e : Exc) → out.0 ≡ err e → out.1.db ≡ w.db

  register-IsUndone : IsUndone (register env lower connected name schema host is_primary w)
  unfolding register
  register-IsUndone e h = rolled_back_lem w _ e h

  register_free-IsUndone :
      IsUndone (register_free env lower connected name schema host is_primary w)
  unfolding register_free
  register_free-IsUndone =
      let schema_taken = exists env.tenants (λ t. str_eq t.schema_name schema) w.db.tenants in
      let domain_taken = exists env.domains (λ d. str_eq d.domain host) w.db.domains in
      elim (Bool-cases (str_eq host "")) [
        | inl blank ↦ rw blank (λ e h. refl)
        | inr given ↦ elim (Bool-cases schema_taken) [
          | inl taken ↦ rw (given, taken) (λ e h. refl)
          | inr free ↦ elim (Bool-cases domain_taken) [
            | inl taken ↦ rw (given, free, taken) (λ e h. refl)
            | inr unclaimed ↦ rw (given, free, unclaimed) register-IsUndone
          ]
        ]
      ]

validate_reads :
    (env : Env) (lower : String → String) (s : String) (w : World)
    → (validate_slug env lower s w).1 ≡ w
unfolding validate_slug normalize_slug
validate_reads env lower s w =
    let text = hyphenate (lower (strip s)) in
    elim (Bool-cases (str_eq text "")) [
      | inl blank ↦ rw blank refl
      | inr given ↦ elim (Bool-cases (is_slug text)) [
        | inl valid ↦ rw (given, valid) refl
        | inr invalid ↦ rw (given, invalid) refl
      ]
    ]

module _ (env : Env) (lower : String → String) (connected : Bool) (name schema_name domain : String)
    (is_primary : Bool) (w : World) where
  -- A call that raises leaves the tables as they were.
  pub create_tenant-IsUndone :
      (e : Exc)
      → (create_tenant env lower connected name schema_name domain is_primary w).0 ≡ err e
      → (create_tenant env lower connected name schema_name domain is_primary w).1.db ≡ w.db
  unfolding create_tenant
  create_tenant-IsUndone =
      undone_after (validate_slug env lower schema_name w) (validate_reads env lower schema_name w)
    where
      undone_after :
          (r : Result String × World)
          → r.1 ≡ w
          → (e : Exc)
          → (proceed
              (λ slug.
                register_free env lower connected name slug (lower (strip domain)) is_primary)
              r).0
            ≡ err e
          → (proceed
              (λ slug.
                register_free env lower connected name slug (lower (strip domain)) is_primary)
              r).1.db
            ≡ w.db
      undone_after (ok slug, v) same e h =
          register_free-IsUndone env lower connected name slug (lower (strip domain)) is_primary v e
            h
          ∙ ap (λ x. x.db) same
      undone_after (err e', v) same e h = ap (λ x. x.db) same
