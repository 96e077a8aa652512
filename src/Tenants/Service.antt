-- ===== src/Tenants/Service.antt =====
-- services/tenants/tenant_service.py: `TenantService`.
pub mod Create
pub mod Onboarding
pub mod Undone
use godown_rbac_system.Prelude.{
  ℕ, String, Bool, true, false, not, ◌&&◌, ◌||◌, List, Option, leb, ◌==◌, str_eq, if◌then◌else◌,
}
use Prim.Native.Char.{Char, code}
use godown_rbac_system.Orm.{exists}
use godown_rbac_system.Models.{Tenant, Domain}
use godown_rbac_system.World.{
  Env, Action, pure, raise, reads, or_raise, atomic, modify, draw_uuid, read_clock, validation,
  conflict, integrity_error, slug_empty, slug_invalid, domain_empty, schema_taken, domain_taken,
  ◌>>=◌, ◌>>◌,
}
use godown_rbac_system.Text.{strip}
use godown_rbac_system.Tenants.Receivers.{create_tenant_default_roles}

-- `s.replace(" ", "-")`
unfoldable pub hyphenate : String → String
hyphenate String.[] = String.[]
hyphenate (String.◌∷◌ c s) =
    let rest = hyphenate s in if code c == b' ' then String.◌∷◌ "-" rest else String.◌∷◌ c rest

-- `[a-z0-9]`
abbrev pub is_slug_code : ℕ → Bool
is_slug_code c = (leb 97 c && leb c 122) || (leb 48 c && leb c 57)

abbrev pub is_empty : String → Bool
is_empty String.[] = true
is_empty (String.◌∷◌ c s) = false

-- `_SLUG_PATTERN.match`, from a place where a letter or digit must come (`fresh`) or one where a
-- hyphen or the end may come too; `$` also stands before a newline at the end.
unfoldable pub matches_from : Bool → String → Bool
matches_from fresh String.[] = not fresh
matches_from fresh (String.◌∷◌ c s) =
    let word = matches_from false s in
    let hyphen = matches_from true s in
    if is_slug_code (code c)
    then word
    else if fresh
    then false
    else if code c == b'-'
    then hyphen
    else code c == 10 && is_empty s

unfoldable pub is_slug : String → Bool
unfolding matches_from
is_slug s = matches_from true s

pub record CreateTenantResult : Type 0 where
  pub tenant : Tenant
  pub domain : Domain

-- `lower` is `str.lower`.
module _ (env : Env) (lower : String → String) where
  abbrev unless_empty : String → Action String
  unless_empty s = if str_eq s "" then raise (validation slug_empty) else pure s

  unfoldable pub normalize_slug : String → Action String
  unfolding strip hyphenate
  normalize_slug slug = unless_empty (hyphenate (lower (strip slug)))

  unfoldable pub validate_slug : String → Action String
  unfolding normalize_slug is_slug
  validate_slug slug = do
    normalized ← normalize_slug slug
    if is_slug normalized then pure normalized else raise (validation slug_invalid)

  -- `Domain.objects.create(…)`
  unfoldable pub new_domain : Tenant → String → Bool → Action Domain
  new_domain tenant host is_primary = do
    id ← draw_uuid env
    let domain : Domain = record {
      id = id;
      tenant = tenant.id;
      domain = host;
      is_primary = is_primary;
    }
    rows ← reads (λ db. or_raise integrity_error (env.domains.create domain db.domains))
    modify (λ db. record db { domains = rows })
    pure domain

  module _ (connected : Bool) where
    -- `Tenant.objects.create(…)`, and the receiver of apps/tenants/apps.py that its signal calls.
    unfoldable pub new_tenant : String → String → Action Tenant
    unfolding strip create_tenant_default_roles
    new_tenant name schema_name = do
      id ← draw_uuid env
      created_at ← read_clock env
      updated_at ← read_clock env
      let tenant : Tenant = record {
        id = id;
        name = strip name;
        slug = schema_name;
        schema_name = schema_name;
        is_active = true;
        created_at = created_at;
        updated_at = updated_at;
      }
      rows ← reads (λ db. or_raise integrity_error (env.tenants.create tenant db.tenants))
      modify (λ db. record db { tenants = rows })
      create_tenant_default_roles env connected tenant
      pure tenant

    -- The block under `transaction.atomic()`.
    unfoldable pub register : String → String → String → Bool → Action CreateTenantResult
    unfolding new_tenant new_domain
    register name schema_name host is_primary = atomic (do
      tenant ← new_tenant name schema_name
      domain ← new_domain tenant host is_primary
      pure (record { tenant = tenant; domain = domain }))

    -- The checks after the slug's.
    unfoldable pub register_free : String → String → String → Bool → Action CreateTenantResult
    unfolding register
    register_free name schema_name host is_primary w =
        if str_eq host ""
        then raise (validation domain_empty) w
        else if exists env.tenants (λ t. str_eq t.schema_name schema_name) w.db.tenants
        then raise (conflict (schema_taken schema_name)) w
        else if exists env.domains (λ d. str_eq d.domain host) w.db.domains
        then raise (conflict (domain_taken host)) w
        else register name schema_name host is_primary w

    unfoldable pub create_tenant : String → String → String → Bool → Action CreateTenantResult
    unfolding strip validate_slug register_free
    create_tenant name schema_name domain is_primary = do
      slug ← validate_slug schema_name
      register_free name slug (lower (strip domain)) is_primary
