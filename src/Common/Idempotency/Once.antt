-- ===== src/Common/Idempotency/Once.antt =====
-- How often `run` calls an operation.
use godown_rbac_system.Prelude.{
  ℕ, ◌+◌, ◌<◌, String, false, Option, none, some, ◌≡◌, ◌≢◌, refl, inl, inr, str_eq, eq_iff,
  Bool-cases,
}
use text.Mathlib.TextLemmas.{append_cancel_left}
use godown_rbac_system.World.{Result, ok, err}
use godown_rbac_system.Common.Idempotency.{ResultCache, cache_key, keep, cached_or_run, run}

apart : (key other : String) → key ≢ other → str_eq (cache_key key) (cache_key other) ≡ false
unfolding cache_key
apart key other ne = elim (Bool-cases (str_eq (cache_key key) (cache_key other))) [
  | inr differ ↦ differ
  | inl same ↦
      elim (ne (
        append_cancel_left "celery:idempotent:" key other
          ((eq_iff (cache_key key) (cache_key other)).0 same))) [ ]
]

module _ {V W Cache : Type 0} (api : ResultCache V Cache) where
  -- If the cache has nothing under the key, and the operation returns a value, the call returns it,
  -- and a second call under the key before the timeout, of whatever operation, returns the same
  -- value and changes neither the state nor the cache.
  pub run_once :
      (key : String) (operation again : W → Result (Option V) × W)
      (ttl start finish later after : ℕ) (v : V) (w w_1 w_2 : W) (c : Cache)
      → api.get (cache_key key) start c ≡ none
      → operation w ≡ (ok (some v), w_1)
      → later < finish + ttl
      → let first = run api key operation ttl start finish w c in
        (first.0 ≡ ok (some v))
        × (first.1 ≡ w_1)
        × (run api key again ttl later after w_2 first.2 ≡ (ok (some v), w_2, first.2))
  unfolding run
  run_once key operation again ttl start finish later after v w w_1 w_2 c new e le =
      rw (new, e, api.get_set_same (cache_key key) (some v) ttl finish later c le)
        (refl, refl, refl)

  -- If the cache has nothing under the key, and the operation returns None, a second call under
  -- the key runs its operation all the same, before the timeout too.
  pub run_again_none :
      (key : String) (operation again : W → Result (Option V) × W)
      (ttl start finish later after : ℕ) (w w_1 w_2 : W) (c : Cache)
      → api.get (cache_key key) start c ≡ none
      → operation w ≡ (ok none, w_1)
      → later < finish + ttl
      → let first = run api key operation ttl start finish w c in
        run api key again ttl later after w_2 first.2
        ≡ keep api (cache_key key) ttl after first.2 (again w_2)
  unfolding run
  run_again_none key operation again ttl start finish later after w w_1 w_2 c new e le =
      rw (new, e, api.get_set_same (cache_key key) none ttl finish later c le) refl

  kept-other :
      (key other : String) (ttl finish later : ℕ) (c : Cache) (out : Result (Option V) × W)
      → str_eq (cache_key key) (cache_key other) ≡ false
      → api.get (cache_key other) later (keep api (cache_key key) ttl finish c out).2
        ≡ api.get (cache_key other) later c
  kept-other key other ttl finish later c (ok v, w) differ =
      api.get_set_other (cache_key key) (cache_key other) v ttl finish later c differ
  kept-other key other ttl finish later c (err e, w) differ = refl

  ran-other :
      (key other : String) (operation : W → Result (Option V) × W) (ttl finish later : ℕ) (w : W)
      (c : Cache) (hit : Option V)
      → str_eq (cache_key key) (cache_key other) ≡ false
      → api.get
          (cache_key other)
          later
          (cached_or_run api (cache_key key) operation ttl finish w c hit).2
        ≡ api.get (cache_key other) later c
  ran-other key other operation ttl finish later w c (some v) differ = refl
  ran-other key other operation ttl finish later w c none differ =
      kept-other key other ttl finish later c (operation w) differ

  -- The answer and the state do not depend on the cache beyond what was read.
  kept-same :
      (key : String) (ttl finish : ℕ) (c c_1 : Cache) (out : Result (Option V) × W)
      → ((keep api key ttl finish c_1 out).0 ≡ (keep api key ttl finish c out).0)
        × ((keep api key ttl finish c_1 out).1 ≡ (keep api key ttl finish c out).1)
  kept-same key ttl finish c c_1 (ok v, w) = (refl, refl)
  kept-same key ttl finish c c_1 (err e, w) = (refl, refl)

  ran-same :
      (key : String) (operation : W → Result (Option V) × W) (ttl finish : ℕ) (w : W)
      (c c_1 : Cache) (hit : Option V)
      → ((cached_or_run api key operation ttl finish w c_1 hit).0
          ≡ (cached_or_run api key operation ttl finish w c hit).0)
        × ((cached_or_run api key operation ttl finish w c_1 hit).1
            ≡ (cached_or_run api key operation ttl finish w c hit).1)
  ran-same key operation ttl finish w c c_1 (some v) = (refl, refl)
  ran-same key operation ttl finish w c c_1 none = kept-same key ttl finish c c_1 (operation w)

  -- A call under one key changes neither the result nor the effect of a call under another.
  pub run-others :
      (key other : String) (operation again : W → Result (Option V) × W)
      (ttl start finish later after : ℕ) (w w_2 : W) (c : Cache)
      → key ≢ other
      → let c_1 = (run api key operation ttl start finish w c).2 in
        ((run api other again ttl later after w_2 c_1).0
          ≡ (run api other again ttl later after w_2 c).0)
        × ((run api other again ttl later after w_2 c_1).1
            ≡ (run api other again ttl later after w_2 c).1)
  unfolding run
  run-others key other operation again ttl start finish later after w w_2 c ne =
      rw
        (ran-other key other operation ttl finish later w c (api.get (cache_key key) start c)
          (apart key other ne))
        (ran-same (cache_key other) again ttl after w_2 c
          (cached_or_run api (cache_key key) operation ttl finish w c
            (api.get (cache_key key) start c)).2
          (api.get (cache_key other) later c))
