-- ===== src/Tenants/Service/Create.antt =====
-- What `create_tenant` promises: the new host leads to the new tenant.
use godown_rbac_system.Prelude.{
  ℕ, suc, ◌≤◌, ◌∷◌, ◌++◌, ap, map, contains, String, Bool, true, false, ◌||◌, List, some, ◌≡◌, refl,
  ◌∙◌, ◌==◌, str_eq, eq_iff, any, arith,
}
use godown_rbac_system.Orm.{Inserts}
use godown_rbac_system.Orm.Laws.{exists_lem, any_or, any_congr}
use godown_rbac_system.Models.{Tenant, Domain, tenant_clash, domain_clash}
use godown_rbac_system.World.{World, Env, Result, ok, proceed}
use godown_rbac_system.Text.{strip}
use godown_rbac_system.Rbac.Writes.{has_slug, default_roles}
use godown_rbac_system.Rbac.Writes.Defaults.{IsReady}
use godown_rbac_system.Rbac.Writes.Growth.{Grows}
use godown_rbac_system.Tenants.Receivers.{create_tenant_default_roles-IsReceived}
use godown_rbac_system.Tenants.Service.{
  CreateTenantResult, validate_slug, register, register_free, create_tenant,
}

turned :
    {Row : Type 0} (f : Row → String) (s : String) (t : List Row)
    → any (λ r. str_eq s (f r)) t ≡ false
    → any (λ r. str_eq (f r) s) t ≡ false
turned f s t h =
    any_congr (λ r. str_eq (f r) s) (λ r. str_eq s (f r)) t
      (λ r. ground (arith, eq_iff (f r) s, eq_iff s (f r)))
    ∙ h

module _ (env : Env) (lower : String → String) (name schema host : String) (is_primary : Bool)
    (w : World) where
  abbrev pub fresh_tenant : Tenant
  fresh_tenant = record {
    id = env.uuid4 w.ticks;
    name = strip name;
    slug = schema;
    schema_name = schema;
    is_active = true;
    created_at = env.now (suc w.ticks);
    updated_at = env.now (suc (suc w.ticks));
  }

  -- The domain whose key is drawn at that reading.
  abbrev pub fresh_domain : ℕ → Domain
  fresh_domain at = record {
    id = env.uuid4 at;
    tenant = env.uuid4 w.ticks;
    domain = host;
    is_primary = is_primary;
  }

  abbrev pub both : ℕ → CreateTenantResult
  both at = record { tenant = fresh_tenant; domain = fresh_domain at }

  -- The tables after both rows, and what the receiver of apps/tenants/apps.py left before the second.
  pub record IsRegistered (connected : Bool) (at : ℕ) (out : Result CreateTenantResult × World)
      : Type 0 where
    pub returned : out.0 ≡ ok (both at)
    pub tenants : Inserts fresh_tenant w.db.tenants (some out.1.db.tenants)
    pub domains : Inserts (fresh_domain at) w.db.domains (some out.1.db.domains)
    pub later : suc (suc (suc w.ticks)) ≤ at
    pub at_once : connected ≡ false → at ≡ suc (suc (suc w.ticks))
    pub ready : IsReady env out.1
    pub grows : Grows w out.1
    pub roles :
        connected ≡ true
        → (slug : String) → contains slug (map (λ d. d.0) default_roles) ≡ true
        → any (has_slug fresh_tenant slug) out.1.db.roles ≡ true

  abbrev tenant_saved : List Tenant → World
  tenant_saved rows = record w {
    db = record w.db { tenants = rows };
    ticks = suc (suc (suc w.ticks));
  }

  tenant-IsReady : (rows : List Tenant) → IsReady env w → IsReady env (tenant_saved rows)
  tenant-IsReady rows ready = record {
    distinct = ready.distinct;
    unused = λ k from. ready.unused k (ground arith);
  }

  registered :
      (distinct_keys : (i j : ℕ) → env.uuid4 i ≡ env.uuid4 j → i ≡ j) (connected : Bool)
      → IsReady env w
      → any (tenant_clash fresh_tenant) w.db.tenants ≡ false
      → ((k : ℕ) → w.ticks ≤ k → any (domain_clash (fresh_domain k)) w.db.domains ≡ false)
      → (at : ℕ) × IsRegistered connected at
          (register env lower connected name schema host is_primary w)
  unfolding register
  registered distinct_keys connected ready free_tenant free_domain =
      let (xs, ys, before, inserted) =
        env.tenants.create_fresh fresh_tenant w.db.tenants free_tenant in
      let v = tenant_saved (xs ++ fresh_tenant ∷ ys) in
      let (v', run, end) =
        create_tenant_default_roles-IsReceived env connected distinct_keys fresh_tenant v
          (tenant-IsReady (xs ++ fresh_tenant ∷ ys) ready) in
      let since = end.grows.ticks in
      let (us, vs, earlier, added) =
        env.domains.create_fresh (fresh_domain v'.ticks) w.db.domains
          (free_domain v'.ticks (ground arith)) in
      (
        v'.ticks,
        rw (inserted, run, proceed, end.hosts.domains, added)
            (record {
              returned = refl;
              tenants = rw end.hosts.tenants ((xs, ys, before, refl));
              domains = (us, vs, earlier, refl);
              later = since;
              at_once = λ h. ap (λ x. x.ticks) (end.absent h);
              ready = record {
                distinct = end.ready.distinct;
                unused = λ k from. end.ready.unused k (ground arith);
              };
              grows = record {
                memberships = end.grows.memberships;
                more = end.grows.more;
                ticks = ground arith;
              };
              roles = end.roles;
            }),
      )

  no_tenant_clash :
      any (λ t. env.uuid4 w.ticks == t.id) w.db.tenants ≡ false
      → any (λ t. str_eq schema t.slug) w.db.tenants ≡ false
      → any (λ t. str_eq schema t.schema_name) w.db.tenants ≡ false
      → any (tenant_clash fresh_tenant) w.db.tenants ≡ false
  no_tenant_clash unused slug_free schema_free =
      any_or (λ t. env.uuid4 w.ticks == t.id)
        (λ t. str_eq schema t.slug || str_eq schema t.schema_name) w.db.tenants
      ∙ rw
          (
            unused,
            any_or (λ t. str_eq schema t.slug) (λ t. str_eq schema t.schema_name) w.db.tenants,
            slug_free,
            schema_free,
          )
          refl

  no_domain_clash :
      (k : ℕ)
      → any (λ d. env.uuid4 k == d.id) w.db.domains ≡ false
      → any (λ d. str_eq host d.domain) w.db.domains ≡ false
      → any (domain_clash (fresh_domain k)) w.db.domains ≡ false
  no_domain_clash k unused free =
      any_or (λ d. env.uuid4 k == d.id) (λ d. str_eq host d.domain) w.db.domains
      ∙ rw (unused, free) refl

  -- No row has the slug, the schema's name, the host or the tenant's key, no domain a key still to be
  -- drawn, and the roles are ready for more.
  pub record IsFree : Type 0 where
    pub tenant_id : any (λ t. env.uuid4 w.ticks == t.id) w.db.tenants ≡ false
    pub slug : any (λ t. str_eq schema t.slug) w.db.tenants ≡ false
    pub schema_name : any (λ t. str_eq schema t.schema_name) w.db.tenants ≡ false
    pub domain_id : (k : ℕ) → w.ticks ≤ k → any (λ d. env.uuid4 k == d.id) w.db.domains ≡ false
    pub domain : any (λ d. str_eq host d.domain) w.db.domains ≡ false
    pub roles : IsReady env w

  pub register_run :
      (distinct_keys : (i j : ℕ) → env.uuid4 i ≡ env.uuid4 j → i ≡ j) (connected : Bool)
      → IsFree
      → (at : ℕ) × IsRegistered connected at
          (register env lower connected name schema host is_primary w)
  register_run distinct_keys connected free =
      registered distinct_keys connected free.roles
        (no_tenant_clash free.tenant_id free.slug free.schema_name)
        (λ k from. no_domain_clash k (free.domain_id k from) free.domain)

  free_run :
      (connected : Bool)
      → IsFree
      → str_eq host "" ≡ false
      → register_free env lower connected name schema host is_primary w
        ≡ register env lower connected name schema host is_primary w
  unfolding register_free
  free_run connected free nonempty =
      rw
        (
          nonempty,
          exists_lem env.tenants (λ t. str_eq t.schema_name schema) w.db.tenants,
          exists_lem env.domains (λ d. str_eq d.domain host) w.db.domains,
          turned (λ t. t.schema_name) schema w.db.tenants free.schema_name,
          turned (λ d. d.domain) host w.db.domains free.domain,
        )
        refl

module _ (env : Env) (distinct_keys : (i j : ℕ) → env.uuid4 i ≡ env.uuid4 j → i ≡ j)
    (lower : String → String) (connected : Bool) (name schema_name domain : String)
    (is_primary : Bool) (w : World) where
  -- Nothing is refused, so that the call is the block under `transaction.atomic()`.
  pub create_tenant-IsRegistered :
      (slug : String)
      → validate_slug env lower schema_name w ≡ (ok slug, w)
      → str_eq (lower (strip domain)) "" ≡ false
      → IsFree env lower name slug (lower (strip domain)) is_primary w
      → (at : ℕ) × IsRegistered env lower name slug
          (lower (strip domain))
          is_primary
          w
          connected
          at
          (create_tenant env lower connected name schema_name domain is_primary w)
  unfolding create_tenant
  create_tenant-IsRegistered slug valid nonempty free =
      rw
        (
          valid,
          proceed,
          free_run env lower name slug (lower (strip domain)) is_primary w connected free nonempty,
        )
        (register_run env lower name slug (lower (strip domain)) is_primary w distinct_keys
          connected free)
