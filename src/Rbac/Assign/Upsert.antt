-- ===== src/Rbac/Assign/Upsert.antt =====
-- What `update_or_create` does to the memberships: the row of the user in the tenant is new or
-- changed, and every other user's row, and every other tenant's, is as before.
use godown_rbac_system.Prelude.{
  ℕ, true, false, ◌||◌, List, [], ◌∷◌, some, ◌≡◌, ◌≢◌, ◌⊎◌, refl, sym, ap, ◌∙◌, inl, inr, map, ◌==◌,
  select, any, arith, if◌then◌else◌,
}
use godown_rbac_system.Orm.{Inserts}
use godown_rbac_system.Orm.Laws.{
  select-insert_new, select-insert_other, select-update, any-select, any-and_comm, map_if_none,
  select_hit,
}
use godown_rbac_system.Orm.Distinct.{Distinct, select_self, Distinct-insert, Distinct-update}
use godown_rbac_system.Models.{User, Tenant, UserTenantRole, membership_clash}
use godown_rbac_system.Rbac.Queries.{in_tenant}
use godown_rbac_system.Rbac.Consistent.{membership_clash_comm}
use godown_rbac_system.Rbac.Assign.{set_role}

-- No row of the table has the key.
abbrev pub IsUnused : ℕ → List UserTenantRole → Type 0
IsUnused k ms = any (λ m. k == m.id) ms ≡ false

-- Another user, or the same in another tenant.
abbrev pub IsOther : User → Tenant → User → Tenant → Type 0
IsOther u t u' t' = (u'.id ≢ u.id) ⊎ (t'.id ≢ t.id)

pub record IsUpserted (u : User) (t : Tenant) (m : UserTenantRole)
    (before after : List UserTenantRole) : Type 0 where
  pub row : select (in_tenant u t) after ≡ m ∷ []
  pub others :
      (u' : User) (t' : Tenant)
      → IsOther u t u' t'
      → select (in_tenant u' t') after ≡ select (in_tenant u' t') before
  pub distinct : Distinct membership_clash after

pub other-in_tenant :
    (u u' : User) (t t' : Tenant)
    → IsOther u t u' t'
    → (m : UserTenantRole) → in_tenant u t m ≡ true
    → in_tenant u' t' m ≡ false
other-in_tenant u u' t t' (inl h) m e = ground arith
other-in_tenant u u' t t' (inr h) m e = ground arith

pub new-IsUpserted :
    (u : User) (t : Tenant) (m : UserTenantRole) (ms ms' : List UserTenantRole)
    → Distinct membership_clash ms
    → in_tenant u t m ≡ true
    → any (membership_clash m) ms ≡ false
    → any (in_tenant u t) ms ≡ false
    → Inserts m ms (some ms')
    → IsUpserted u t m ms ms'
new-IsUpserted u t m ms ms' d hit fresh absent ins = record {
  row = select-insert_new (in_tenant u t) m ms ms' ins hit absent;
  others = λ u' t' other.
      select-insert_other (in_tenant u' t') m ms ms' ins (other-in_tenant u u' t t' other m hit);
  distinct = Distinct-insert membership_clash membership_clash_comm m ms ms' ins fresh d;
}

module _ (u : User) (t : Tenant) (old m : UserTenantRole) (ms : List UserTenantRole)
    (d : Distinct membership_clash ms) (listed : select (in_tenant u t) ms ≡ old ∷ [])
    (same_id : m.id ≡ old.id) where
  abbrev pub changed : List UserTenantRole
  changed = map (λ n. if n.id == m.id then set_role m n else n) ms

  saved-row : select (in_tenant u t) changed ≡ set_role m old ∷ []
  saved-row =
      select-update (in_tenant u t) (λ n. n.id == m.id) (set_role m) ms (λ n. refl)
      ∙ ap (map (λ n. if n.id == m.id then set_role m n else n)) listed
      ∙ ground arith

  saved-others :
      (u' : User) (t' : Tenant)
      → IsOther u t u' t'
      → select (in_tenant u' t') changed ≡ select (in_tenant u' t') ms
  saved-others u' t' other =
      select-update (in_tenant u' t') (λ n. n.id == m.id) (set_role m) ms (λ n. refl)
      ∙ map_if_none (λ n. n.id == m.id) (set_role m) _
          (any-select (λ n. n.id == m.id) (in_tenant u' t') ms
            ∙ any-and_comm (in_tenant u' t') (λ n. n.id == m.id) ms
            ∙ sym (any-select (in_tenant u' t') (λ n. n.id == m.id) ms)
            ∙ ap (any (in_tenant u' t')) by_id
            ∙ ap (λ b. b || false) (other-in_tenant u u' t t' other old own))
    where
      own : in_tenant u t old ≡ true
      own = select_hit (in_tenant u t) ms old [] listed

      by_id : select (λ n. n.id == m.id) ms ≡ old ∷ []
      by_id =
          select_self membership_clash (in_tenant u t) (λ n. n.id == m.id) ms old
            (λ a b p q. ground arith) (ground arith) d listed

  pub saved-IsUpserted : IsUpserted u t (set_role m old) ms changed
  saved-IsUpserted = record {
    row = saved-row;
    others = saved-others;
    distinct =
        Distinct-update membership_clash (λ n. n.id == m.id) (set_role m) ms (λ a b. refl)
          (λ a b. refl) d;
  }
