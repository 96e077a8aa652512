-- ===== src/Tests/Hosts.antt =====
-- The theorems on hosts and tenants, with a cache that is a list of keys, values and timeouts.
use godown_rbac_system.Prelude.{
  ℕ, suc, ◌+◌, ◌<◌, String, true, false, not, List, [], ◌∷◌, Option, none, some, ◌≡◌, refl, inl,
  inr, select, leb, str_eq, eq_refl, eq_iff, arith, Bool-cases, if◌then◌else◌,
}
use godown_rbac_system.World.{World, Db, ok}
use godown_rbac_system.Tenants.Middleware.{Cached, CacheApi, resolve_host}
use godown_rbac_system.Tenants.Staleness.{
  Reaches, fresh, passed, asked, IsRecent, resolve_host-IsRecent,
}
use godown_rbac_system.Tenants.Service.{validate_slug, create_tenant}
use godown_rbac_system.Tenants.Service.Create.{fresh_tenant, IsFree}
use godown_rbac_system.Tenants.Service.Onboarding.{create_tenant-assign_role}
use godown_rbac_system.Models.{Tenant, UserTenantRole}
use godown_rbac_system.Audit.Service.{id_of}
use godown_rbac_system.Rbac.Queries.{get_role}
use godown_rbac_system.Rbac.Assign.{assign_role}
use godown_rbac_system.Tests.Roles.{test_db-IsConsistent, test_world-IsReady, apart_keys}
use godown_rbac_system.Tests.Seeds.{test_world-IsFresh}
use godown_rbac_system.Tests.Environment.{ann, test_env, test_world, test_db}

abbrev ListCache : Type 0
ListCache = List (String × Cached × ℕ)

abbrev list_get : String → ℕ → ListCache → Option Cached
list_get key now [] = none
list_get key now ((k, v, until) ∷ c) =
    if str_eq k key then if leb (suc now) until then some v else none else list_get key now c

abbrev list_set : String → Cached → ℕ → ℕ → ListCache → ListCache
list_set key v timeout since c = (key, v, since + timeout) ∷ c

abbrev list_delete : String → ListCache → ListCache
list_delete key c = select (λ e. not (str_eq e.0 key)) c

list_get_set_same :
    (key : String) (v : Cached) (timeout since now : ℕ) (c : ListCache) (e : Cached)
    → list_get key now (list_set key v timeout since c) ≡ some e
    → (e ≡ v) × (now < since + timeout)
list_get_set_same key v timeout since now c e h =
    elim (Bool-cases (leb (suc now) (since + timeout))) [
      | inl alive ↦
          let got : some v ≡ some e = rw alive at (rw (eq_refl key) at h) in (cc, ground arith)
      | inr expired ↦ let got : none ≡ some e = rw expired at (rw (eq_refl key) at h) in cc
    ]

list_get_set_other :
    (key other : String) (v : Cached) (timeout since now : ℕ) (c : ListCache) (e : Cached)
    → str_eq key other ≡ false
    → list_get other now (list_set key v timeout since c) ≡ some e
    → list_get other now c ≡ some e
list_get_set_other key other v timeout since now c e apart h = rw apart at h

list_get_delete_same :
    (key : String) (now : ℕ) (c : ListCache) → list_get key now (list_delete key c) ≡ none
list_get_delete_same key now [] = refl
list_get_delete_same key now ((k, v, until) ∷ c) = ground (arith, list_get_delete_same key now c)

list_get_delete_other :
    (key other : String) (now : ℕ) (c : ListCache) (e : Cached)
    → str_eq key other ≡ false
    → list_get other now (list_delete key c) ≡ some e
    → list_get other now c ≡ some e
list_get_delete_other key other now [] e apart h = h
list_get_delete_other key other now ((k, v, until) ∷ c) e apart h =
    elim (Bool-cases (str_eq k key)) [
      | inl same ↦
          let missed : str_eq k other ≡ false = rw ((eq_iff k key).0 same) apart in
          rw missed (list_get_delete_other key other now c e apart (rw same at h))
      | inr kept ↦ elim (Bool-cases (str_eq k other)) [
        | inl met ↦ rw met (rw met at (rw kept at h))
        | inr missed ↦
            rw missed (list_get_delete_other key other now c e apart (rw missed at (rw kept at h)))
      ]
    ]

abbrev list_cache : CacheApi ListCache
list_cache = record {
  get = list_get;
  set = list_set;
  delete = list_delete;
  get_set_same = list_get_set_same;
  get_set_other = list_get_set_other;
  get_delete_same = list_get_delete_same;
  get_delete_other = list_get_delete_other;
}

-- The first tenant's host is registered after five seconds.
abbrev history : ℕ → Db
history now =
    if leb 5 now
    then record test_db {
      domains = record { id = 61; tenant = 1; domain = "one.example"; is_primary = true } ∷ [];
    }
    else test_db

-- The host is asked for at once, and again a second later.
asked_early :
    Reaches test_env list_cache history 1
      (resolve_host test_env list_cache "one.example" 0 test_db []).1
asked_early = passed (asked "one.example" (fresh (λ key now. refl)))

resolve_host-IsRecent_example :
    IsRecent test_env list_cache history "one.example" 1
      (resolve_host test_env list_cache "one.example" 1
        (history 1)
        (resolve_host test_env list_cache "one.example" 0 test_db []).1).0
resolve_host-IsRecent_example =
    resolve_host-IsRecent test_env list_cache history "one.example" 1
      (resolve_host test_env list_cache "one.example" 0 test_db []).1 asked_early

-- A lower case that serves for texts in lower case.
abbrev same_text : String → String
same_text s = s

three-IsFree : IsFree test_env same_text "Three" "three" "three.example" true test_world
three-IsFree = record {
  tenant_id = refl;
  slug = refl;
  schema_name = refl;
  domain_id = λ k from. ground arith;
  domain = refl;
  roles = test_world-IsReady;
}

abbrev three : Tenant
three = fresh_tenant test_env same_text "Three" "three" "three.example" true test_world

abbrev with_three : World
with_three =
    (create_tenant test_env same_text true "Three" " three" "three.example " true test_world).1

create_tenant-assign_role_example :
    (m : UserTenantRole) × ((assign_role test_env ann three "owner" none with_three).0 ≡ ok m)
    × (m.assigned_by ≡ id_of none)
    × ((get_role test_env ann three (assign_role test_env ann three "owner" none with_three).1).0
        ≡ ok (some "owner"))
unfolding validate_slug
create_tenant-assign_role_example =
    create_tenant-assign_role test_env apart_keys same_text "Three" " three" "three.example " true
      test_world ann none "three" refl refl three-IsFree test_db-IsConsistent test_world-IsFresh
      "owner" refl
