-- ===== src/Rbac/Assign/Run.antt =====
-- `assign_role` run to its end: what it returns, and the tables that it leaves.
use godown_rbac_system.Prelude.{
  suc, true, false, ◌&&◌, List, [], ◌∷◌, ◌++◌, Option, some, ◌≡◌, refl, sym, ap, subst, ◌∙◌, inl,
  inr, ◌==◌, select, any, arith, All,
}
use godown_rbac_system.Orm.{Inserts}
use godown_rbac_system.Orm.Laws.{select_hit, any_congr, any_of_select-nil, any_or}
use godown_rbac_system.Orm.Distinct.{select_key, select_self}
use godown_rbac_system.Orm.Members.{one-All, All-insert, All-update}
use godown_rbac_system.Models.{User, Tenant, Role, UserTenantRole, membership_clash}
use godown_rbac_system.World.{World, Db, Env, Result, ok}
use godown_rbac_system.Audit.Service.{id_of}
use godown_rbac_system.Rbac.Queries.{in_tenant}
use godown_rbac_system.Rbac.Consistent.{IsConsistent, IsScoped, in_tenant-IsKey}
use godown_rbac_system.Rbac.Assign.{set_role, new_membership, upsert_membership}
use godown_rbac_system.Rbac.Assign.Upsert.{IsUnused, IsUpserted, new-IsUpserted, saved-IsUpserted}

-- What the call returned and left: `m` is the row of the user in the tenant, with the role.
pub record IsAssigned (u : User) (t : Tenant) (role : Role) (by : Option User) (m : UserTenantRole)
    (before after : Db) : Type 0 where
  pub upserted : IsUpserted u t m before.memberships after.memberships
  pub scoped : All (IsScoped before.roles) after.memberships
  pub role_id : m.role ≡ role.id
  pub assigned_by : m.assigned_by ≡ id_of by
  pub roles : after.roles ≡ before.roles
  pub grants : after.grants ≡ before.grants
  pub permissions : after.permissions ≡ before.permissions

module _ (env : Env) (u : User) (t : Tenant) (role : Role) (by : Option User) (w : World)
    (good : IsConsistent w.db) (unused : IsUnused (env.uuid4 w.ticks) w.db.memberships)
    (own_role : role.tenant ≡ t.id)
    (known : any (λ r. r.id == role.id && r.tenant == t.id) w.db.roles ≡ true) where
  abbrev fresh_row : UserTenantRole
  fresh_row = record {
    id = env.uuid4 w.ticks;
    user = u.id;
    tenant = t.id;
    role = role.id;
    assigned_by = id_of by;
    created_at = env.now (suc w.ticks);
  }

  abbrev Outcome : Result UserTenantRole × World → Type 0
  Outcome end = (m : UserTenantRole) × (end.0 ≡ ok m) × IsAssigned u t role by m w.db end.1.db

  inserted :
      any (in_tenant u t) w.db.memberships ≡ false → Outcome (new_membership env u t role by w)
  unfolding new_membership
  inserted absent =
      let ms : List UserTenantRole = w.db.memberships in
      let free : any (membership_clash fresh_row) ms ≡ false =
        any_or (λ n. fresh_row.id == n.id)
          (λ n. fresh_row.user == n.user && fresh_row.tenant == n.tenant) ms
        ∙ ground (
          arith,
          any_congr (λ n. fresh_row.user == n.user && fresh_row.tenant == n.tenant) (in_tenant u t)
              ms (λ n. ground arith),
        ) in
      let (xs, ys, before, e) = env.memberships.create_fresh fresh_row ms free in
      let ins : Inserts fresh_row ms (some (xs ++ fresh_row ∷ ys)) = (xs, ys, before, refl) in
      rw e (
        fresh_row,
        refl,
        record {
          upserted =
              new-IsUpserted u t fresh_row ms _ good.memberships (ground arith) free absent ins;
          scoped = All-insert (IsScoped w.db.roles) fresh_row ms _ ins good.scoped known;
          role_id = refl;
          assigned_by = refl;
          roles = refl;
          grants = refl;
          permissions = refl;
        },
      )

  updated :
      (old : UserTenantRole)
      → select (in_tenant u t) w.db.memberships ≡ old ∷ []
      → Outcome (upsert_membership env u t role by w)
  unfolding upsert_membership
  updated old listed =
      let ms : List UserTenantRole = w.db.memberships in
      let m : UserTenantRole = record old { role = role.id; assigned_by = id_of by } in
      let own = select_hit (in_tenant u t) ms old [] listed in
      let by_id : select (λ n. n.id == m.id) ms ≡ old ∷ [] =
        select_self membership_clash (in_tenant u t) (λ n. n.id == m.id) ms old
          (λ a b p q. ground arith) (ground arith) good.memberships listed in
      rw
        (
          env.memberships.filter_lem (in_tenant u t) ms,
          listed,
          env.memberships.update_lem (λ n. n.id == m.id) (set_role m) ms,
        )
        (
          m,
          refl,
          record {
            upserted = saved-IsUpserted u t old m ms good.memberships listed refl;
            scoped =
                All-update (IsScoped w.db.roles) (λ n. n.id == m.id) (set_role m)
                  (λ n. (n.id == m.id) ≡ true → n ≡ old) ms good.scoped
                  (one-All (λ n. n.id == m.id) ms old by_id)
                  (λ n h same hit.
                    let here : n.tenant ≡ t.id = ap (λ x. x.tenant) (same hit) ∙ ground arith in
                    subst (λ k. any (λ r. r.id == role.id && r.tenant == k) w.db.roles ≡ true)
                      (sym here) known);
            role_id = refl;
            assigned_by = refl;
            roles = refl;
            grants = refl;
            permissions = refl;
          },
        )

  pub upserted_ok : Outcome (upsert_membership env u t role by w)
  unfolding upsert_membership
  upserted_ok =
      elim (select_key membership_clash (in_tenant u t) w.db.memberships (in_tenant-IsKey u t)
        good.memberships) [
          | inl none_listed ↦
              rw (env.memberships.filter_lem (in_tenant u t) w.db.memberships, none_listed)
                (inserted (any_of_select-nil (in_tenant u t) w.db.memberships none_listed))
          | inr (old, listed) ↦ updated old listed
        ]
