-- ===== src/Tenants/Middleware.antt =====
-- apps/tenants/middleware.py and services/tenant_context.py: the tenant of a request by its host,
-- through Django's cache.
use godown_rbac_system.Prelude.{
  ℕ, ◌+◌, ◌<◌, String, Bool, false, ◌||◌, List, [], ◌∷◌, ◌++◌, Option, none, some, ◌≡◌, select, any,
  contains, ◌==◌, str_eq, if◌then◌else◌,
}
use Prim.Native.String as Text
use text.Mathlib.Text.{starts_with}
use godown_rbac_system.Orm.{Got, found, missing, several, one}
use godown_rbac_system.Models.{Tenant, Domain}
use godown_rbac_system.World.{World, Db, Env, Result, ok, err, multiple_objects}
use godown_rbac_system.Text.{before}
use godown_rbac_system.Http.{Request, Response, failure}

-- What the cache holds for a host: a tenant, or `_CACHE_SENTINEL`.
pub data Cached : Type 0 where
  known : Tenant → Cached
  unknown : Cached

-- `django.core.cache.cache`: a value that was set can be read until its timeout, unless it is
-- evicted earlier; a key is untouched by what is done to the others.
pub record CacheApi (Cache : Type 0) : Type 0 where
  pub get : String → ℕ → Cache → Option Cached
  pub set : String → Cached → ℕ → ℕ → Cache → Cache
  pub delete : String → Cache → Cache
  pub get_set_same :
      (key : String) (v : Cached) (timeout since now : ℕ) (c : Cache) (e : Cached)
      → get key now (set key v timeout since c) ≡ some e
      → (e ≡ v) × (now < since + timeout)
  pub get_set_other :
      (key other : String) (v : Cached) (timeout since now : ℕ) (c : Cache) (e : Cached)
      → str_eq key other ≡ false
      → get other now (set key v timeout since c) ≡ some e
      → get other now c ≡ some e
  pub get_delete_same : (key : String) (now : ℕ) (c : Cache) → get key now (delete key c) ≡ none
  pub get_delete_other :
      (key other : String) (now : ℕ) (c : Cache) (e : Cached)
      → str_eq key other ≡ false
      → get other now (delete key c) ≡ some e
      → get other now c ≡ some e

abbrev pub tenant_cache_ttl : ℕ
tenant_cache_ttl = 300

abbrev pub negative_cache_ttl : ℕ
negative_cache_ttl = 60

-- `_EXEMPT_PREFIXES` and `_EXEMPT_EXACT`
abbrev pub exempt_prefixes : List String
exempt_prefixes =
    "/admin/" ∷ "/health/" ∷ "/ready/" ∷ "/api/schema/" ∷ "/api/docs/" ∷ "/api/redoc/" ∷ "/static/"
    ∷ []

abbrev pub exempt_exact : List String
exempt_exact = "/" ∷ []

unfoldable pub is_exempt : String → Bool
is_exempt path = any (starts_with path) exempt_prefixes || contains path exempt_exact

unfoldable pub cache_key : String → String
cache_key host = Text.◌++◌ "tenant:domain:" host

-- The inner join of `Domain.objects.select_related("tenant")`.
abbrev pub with_tenant : List Tenant → List Domain → List Tenant
with_tenant tenants [] = []
with_tenant tenants (d ∷ ds) = select (λ t. t.id == d.tenant) tenants ++ with_tenant tenants ds

-- What the middleware reads and writes; `tenant_id` is the context variable of
-- services/tenant_context.py.
pub record Site (Cache : Type 0) : Type 0 where
  pub world : World
  pub cache : Cache
  pub tenant_id : Option ℕ

module _ (env : Env) where
  -- `Domain.objects.select_related("tenant").get(domain=host)`
  abbrev pub tenant_of_host : String → Db → Got Tenant
  tenant_of_host host db =
      one (with_tenant db.tenants (env.domains.filter (λ d. str_eq d.domain host) db.domains))

module _ {Cache : Type 0} (env : Env) (api : CacheApi Cache) where
  abbrev set_tenant_id : Option ℕ → Site Cache → Site Cache
  set_tenant_id id site = record site { tenant_id = id }

  abbrev clear_tenant : Site Cache → Site Cache
  clear_tenant site = record site { tenant_id = none }

  abbrev pub remember : String → ℕ → Cache → Got Tenant → Result (Option Tenant) × Cache
  remember host now c (found t) =
      (ok (some t), api.set (cache_key host) (known t) tenant_cache_ttl now c)
  remember host now c missing = (ok none, api.set (cache_key host) unknown negative_cache_ttl now c)
  remember host now c several = (err multiple_objects, c)

  abbrev cached_or : String → ℕ → Db → Cache → Option Cached → Result (Option Tenant) × Cache
  cached_or host now db c (some unknown) = (ok none, c)
  cached_or host now db c (some (known t)) = (ok (some t), c)
  cached_or host now db c none = remember host now c (tenant_of_host env host db)

  -- `_resolve_tenant`, at the time `now`
  unfoldable pub resolve_host : String → ℕ → Db → Cache → Result (Option Tenant) × Cache
  resolve_host host now db c = cached_or host now db c (api.get (cache_key host) now c)

  -- `invalidate_cache`
  unfoldable pub invalidate_cache : String → Cache → Cache
  invalidate_cache host c = api.delete (cache_key host) c

  module _ {A : Type 0} (get_response : Request → Site Cache → Response A × Site Cache) where
    abbrev cleared_response : Response A × Site Cache → Response A × Site Cache
    cleared_response (response, site) = (response, clear_tenant site)

    abbrev dispatch : Request → Site Cache → Option Tenant → Response A × Site Cache
    dispatch request site none =
        cleared_response (get_response (record request { tenant = none }) site)
    dispatch request site (some t) =
        if t.is_active
        then cleared_response
            (get_response (record request { tenant = some t }) (set_tenant_id (some t.id) site))
        else (failure 403, site)

    abbrev resolved :
        Request → Site Cache → Result (Option Tenant) × Cache → Result (Response A) × Site Cache
    resolved request site (err e, c) = (err e, record site { cache = c })
    resolved request site (ok tenant, c) =
        let answer = dispatch request (record site { cache = c }) tenant in (ok answer.0, answer.1)

    -- `__call__`
    unfoldable pub tenant_middleware : ℕ → Request → Site Cache → Result (Response A) × Site Cache
    unfolding is_exempt resolve_host before
    tenant_middleware now request site =
        if is_exempt request.path
        then (let answer = get_response (record request { tenant = none }) (clear_tenant site) in
            (ok answer.0, answer.1))
        else resolved request site
            (resolve_host (before b':' request.host) now site.world.db site.cache)
