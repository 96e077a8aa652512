-- ===== src/Rbac/Writes/Insert.antt =====
-- A new row of roles, where its slug is free and its key unused.
use godown_rbac_system.Prelude.{
  ℕ, suc, String, Bool, true, false, ◌&&◌, List, [], ◌∷◌, ◌++◌, some, ◌≡◌, refl, ◌∙◌, str_eq, ◌==◌,
  any, eq_iff, arith,
}
use godown_rbac_system.Orm.{Inserts}
use godown_rbac_system.Orm.Laws.{any_or, any_congr}
use godown_rbac_system.Models.{Tenant, Role, role_clash}
use godown_rbac_system.World.{World, Env, ok}
use godown_rbac_system.Audit.Signals.{audit_post_save, role_model}
use godown_rbac_system.Rbac.Writes.{has_slug, new_role}

module _ (env : Env) (t : Tenant) (name slug : String) (weight : ℕ) (is_default : Bool)
    (w : World) where
  -- The row that is inserted.
  abbrev pub fresh_role : Role
  fresh_role = record {
    id = env.uuid4 w.ticks;
    tenant = t.id;
    name = name;
    slug = slug;
    is_default = is_default;
    weight = weight;
    created_at = env.now (suc w.ticks);
  }

  -- The world once the row is there.
  abbrev pub with_row : List Role → World
  with_row rows = record {
    db = record w.db { roles = rows };
    queue = w.queue ++ audit_post_save (role_model env) w.context true [] fresh_role;
    context = w.context;
    ticks = suc (suc w.ticks);
  }

  module _ (free : any (has_slug t slug) w.db.roles ≡ false)
      (unused : any (λ r. env.uuid4 w.ticks == r.id) w.db.roles ≡ false) where
    pub no_clash : any (role_clash fresh_role) w.db.roles ≡ false
    no_clash =
        any_or (λ r. env.uuid4 w.ticks == r.id) (λ r. t.id == r.tenant && str_eq slug r.slug)
          w.db.roles
        ∙ ground (
          arith,
          any_congr (λ r. t.id == r.tenant && str_eq slug r.slug) (has_slug t slug) w.db.roles
              (λ r. ground (arith, eq_iff slug r.slug, eq_iff r.slug slug)),
        )

    pub new_role_lem :
        (rows : List Role) × Inserts fresh_role w.db.roles (some rows)
        × (new_role env t name slug weight is_default w ≡ (ok fresh_role, with_row rows))
    unfolding new_role
    new_role_lem =
        let (xs, ys, before, e) = env.roles.create_fresh fresh_role w.db.roles no_clash in
        (xs ++ fresh_role ∷ ys, (xs, ys, before, refl), rw e refl)
