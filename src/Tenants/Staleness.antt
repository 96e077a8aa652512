-- ===== src/Tenants/Staleness.antt =====
-- How old the tenant of a host may be: the cache holds only what the tables said within the last
-- five minutes, or within the last minute if they had no such host.
use godown_rbac_system.Prelude.{
  ℕ, suc, ◌+◌, ◌≤◌, ◌<◌, String, Option, none, some, ◌≡◌, refl, inl, inr, sym, ap, ◌∙◌, str_eq,
  eq_iff, arith, Bool-cases, Option-cases,
}
use text.Mathlib.TextLemmas.{append_cancel_left}
use godown_rbac_system.Orm.{Got, found, missing, several}
use godown_rbac_system.Models.{Tenant}
use godown_rbac_system.World.{Db, Env, Result, ok, err, multiple_objects}
use godown_rbac_system.Tenants.Middleware.{
  Cached, known, unknown, CacheApi, tenant_cache_ttl, negative_cache_ttl, cache_key, tenant_of_host,
  remember, resolve_host, invalidate_cache,
}

cache_key_inj : (host other : String) → cache_key host ≡ cache_key other → host ≡ other
unfolding cache_key
cache_key_inj host other e = append_cancel_left "tenant:domain:" host other e

-- The answer that the tables give.
abbrev pub answer_of : Got Tenant → Result (Option Tenant)
answer_of (found t) = ok (some t)
answer_of missing = ok none
answer_of several = err multiple_objects

module _ {Cache : Type 0} (env : Env) (api : CacheApi Cache) (history : ℕ → Db) where
  -- The tables said this of the host at the time `t`.
  abbrev Said : String → ℕ → Cached → Type 0
  Said host t (known tenant) = tenant_of_host env host (history t) ≡ found tenant
  Said host t unknown = tenant_of_host env host (history t) ≡ missing

  abbrev lifetime : Cached → ℕ
  lifetime (known tenant) = tenant_cache_ttl
  lifetime unknown = negative_cache_ttl

  -- What can be read from the cache at `now` or later was said before and has not expired.
  abbrev pub IsHonest : ℕ → Cache → Type 0
  IsHonest now c =
      (host : String) (later : ℕ) (e : Cached)
      → now ≤ later
      → api.get (cache_key host) later c ≡ some e
      → (t : ℕ) × (t ≤ now) × (later < t + lifetime e) × Said host t e

  -- The caches that requests and changes of domains lead to, at a time, from one that is empty.
  pub data Reaches : ℕ → Cache → Type 0 where
    fresh : {c : Cache} → ((key : String) (now : ℕ) → api.get key now c ≡ none) → Reaches 0 c
    passed : {now : ℕ} {c : Cache} → Reaches now c → Reaches (suc now) c
    asked :
        {now : ℕ} {c : Cache} (host : String)
        → Reaches now c
        → Reaches now (resolve_host env api host now (history now) c).1
    dropped :
        {now : ℕ} {c : Cache} (host : String)
        → Reaches now c
        → Reaches now (invalidate_cache env api host c)

  -- The answer that a request is given, with its age.
  abbrev pub IsRecent : String → ℕ → Result (Option Tenant) → Type 0
  IsRecent host now (ok (some tenant)) =
      (t : ℕ) × (t ≤ now) × (now < t + 300) × (tenant_of_host env host (history t) ≡ found tenant)
  IsRecent host now (ok none) =
      (t : ℕ) × (t ≤ now) × (now < t + 60) × (tenant_of_host env host (history t) ≡ missing)
  IsRecent host now (err e) = tenant_of_host env host (history now) ≡ several

  later-IsHonest : (now : ℕ) (c : Cache) → IsHonest now c → IsHonest (suc now) c
  later-IsHonest now c h host later e le got =
      let (t, before, alive, said) = h host later e (ground arith) got in
      (t, ground arith, alive, said)

  set-IsHonest :
      (host : String) (now : ℕ) (c : Cache) (v : Cached)
      → Said host now v
      → IsHonest now c
      → IsHonest now (api.set (cache_key host) v (lifetime v) now c)
  set-IsHonest host now c v said h other later e le got =
      elim (Bool-cases (str_eq (cache_key host) (cache_key other))) [
        | inr apart ↦ h other later e le (
            api.get_set_other (cache_key host) (cache_key other) v (lifetime v) now later c e apart
              got)
        | inl same ↦
            let eq =
              cache_key_inj host other ((eq_iff (cache_key host) (cache_key other)).0 same) in
            let (e_is_v, alive) =
              api.get_set_same (cache_key other) v (lifetime v) now later c e (rw eq at got) in
            rw e_is_v (now, ground arith, alive, (rw eq at said))
      ]

  remember-IsHonest :
      (host : String) (now : ℕ) (c : Cache) (g : Got Tenant)
      → tenant_of_host env host (history now) ≡ g
      → IsHonest now c
      → IsHonest now (remember env api host now c g).1
  remember-IsHonest host now c (found t) e h = set-IsHonest host now c (known t) e h
  remember-IsHonest host now c missing e h = set-IsHonest host now c unknown e h
  remember-IsHonest host now c several e h = h

  asked-IsHonest :
      (host : String) (now : ℕ) (c : Cache)
      → IsHonest now c
      → IsHonest now (resolve_host env api host now (history now) c).1
  unfolding resolve_host
  asked-IsHonest host now c h = elim (Option-cases (api.get (cache_key host) now c)) [
    | inl nothing ↦ rw nothing (remember-IsHonest host now c _ refl h)
    | inr (known t, hit) ↦ rw hit h
    | inr (unknown, hit) ↦ rw hit h
  ]

  dropped-IsHonest :
      (host : String) (now : ℕ) (c : Cache)
      → IsHonest now c
      → IsHonest now (invalidate_cache env api host c)
  unfolding invalidate_cache
  dropped-IsHonest host now c h other later e le got =
      elim (Bool-cases (str_eq (cache_key host) (cache_key other))) [
        | inr apart ↦
            h other later e le
              (api.get_delete_other (cache_key host) (cache_key other) later c e apart got)
        | inl same ↦
            let eq = (eq_iff (cache_key host) (cache_key other)).0 same in
            let left : api.get (cache_key other) later (api.delete (cache_key other) c) ≡ some e =
              ap (λ k. api.get (cache_key other) later (api.delete k c)) (sym eq) ∙ got in
            let gone = api.get_delete_same (cache_key other) later c in cc
      ]

  fresh-IsHonest :
      (c : Cache) → ((key : String) (now : ℕ) → api.get key now c ≡ none) → IsHonest 0 c
  fresh-IsHonest c empty host later e le got = let gone = empty (cache_key host) later in cc

  reached-IsHonest : {now : ℕ} {c : Cache} → Reaches now c → IsHonest now c
  reached-IsHonest (fresh {c} empty) = fresh-IsHonest c empty
  reached-IsHonest (passed {now} {c} r) = later-IsHonest now c (reached-IsHonest r)
  reached-IsHonest (asked {now} {c} host r) = asked-IsHonest host now c (reached-IsHonest r)
  reached-IsHonest (dropped {now} {c} host r) = dropped-IsHonest host now c (reached-IsHonest r)

  miss-IsRecent :
      (host : String) (now : ℕ) (c : Cache) (g : Got Tenant)
      → tenant_of_host env host (history now) ≡ g
      → IsRecent host now (remember env api host now c g).0
  miss-IsRecent host now c (found t) e = (now, ground arith, ground arith, e)
  miss-IsRecent host now c missing e = (now, ground arith, ground arith, e)
  miss-IsRecent host now c several e = e

  honest-IsRecent :
      (host : String) (now : ℕ) (c : Cache)
      → IsHonest now c
      → IsRecent host now (resolve_host env api host now (history now) c).0
  unfolding resolve_host
  honest-IsRecent host now c h = elim (Option-cases (api.get (cache_key host) now c)) [
    | inl nothing ↦ rw nothing (miss-IsRecent host now c _ refl)
    | inr (known t, hit) ↦ rw hit (h host now (known t) (ground arith) hit)
    | inr (unknown, hit) ↦ rw hit (h host now unknown (ground arith) hit)
  ]

  -- After any sequence of requests, invalidations and passing of time from an empty cache, while
  -- the tables change in any way, the tenant that a request is given for its host is what the tables
  -- said less than five minutes ago, and no tenant is what they said less than a minute ago.
  pub resolve_host-IsRecent :
      (host : String) (now : ℕ) (c : Cache)
      → Reaches now c
      → IsRecent host now (resolve_host env api host now (history now) c).0
  resolve_host-IsRecent host now c r = honest-IsRecent host now c (reached-IsHonest r)

  remembered :
      (host : String) (now : ℕ) (c : Cache) (g : Got Tenant)
      → (remember env api host now c g).0 ≡ answer_of g
  remembered host now c (found t) = refl
  remembered host now c missing = refl
  remembered host now c several = refl

  -- After a host was invalidated, a request is given what the tables say now.
  pub resolve_host-invalidate_cache :
      (host : String) (now : ℕ) (c : Cache)
      → (resolve_host env api host now (history now) (invalidate_cache env api host c)).0
        ≡ answer_of (tenant_of_host env host (history now))
  unfolding resolve_host invalidate_cache
  resolve_host-invalidate_cache host now c =
      rw (api.get_delete_same (cache_key host) now c) (remembered host now _ _)
