-- ===== src/Common/Idempotency.antt =====
-- services/common/idempotency.py: `IdempotencyService`.
pub mod Once
use Prim.Native.String as Text
use godown_rbac_system.Prelude.{ℕ, ◌+◌, ◌<◌, String, false, Option, none, some, ◌≡◌, str_eq}
use godown_rbac_system.World.{Result, ok, err}

-- Django's cache while nothing is evicted: `get` tells a key that is not there and one that holds
-- None by nothing.
pub record ResultCache (V Cache : Type 0) : Type 0 where
  pub get : String → ℕ → Cache → Option V
  pub set : String → Option V → ℕ → ℕ → Cache → Cache
  pub get_set_same :
      (key : String) (v : Option V) (timeout since now : ℕ) (c : Cache)
      → now < since + timeout
      → get key now (set key v timeout since c) ≡ v
  pub get_set_other :
      (key other : String) (v : Option V) (timeout since now : ℕ) (c : Cache)
      → str_eq key other ≡ false
      → get other now (set key v timeout since c) ≡ get other now c

abbrev pub default_ttl_seconds : ℕ
default_ttl_seconds = 86400

-- The second argument is the text of the number, where a number is given.
abbrev pub build_key : String → String → String
build_key task_name business_id = Text.◌++◌ (Text.◌++◌ task_name ":") business_id

unfoldable pub cache_key : String → String
cache_key idempotency_key = Text.◌++◌ "celery:idempotent:" idempotency_key

module _ {V W Cache : Type 0} (api : ResultCache V Cache) where
  abbrev pub keep : String → ℕ → ℕ → Cache → Result (Option V) × W → Result (Option V) × W × Cache
  keep full_key ttl finish c (ok v, w) = (ok v, w, api.set full_key v ttl finish c)
  keep full_key ttl finish c (err e, w) = (err e, w, c)

  abbrev pub cached_or_run :
      String
      → (W → Result (Option V) × W)
      → ℕ
      → ℕ
      → W
      → Cache
      → Option V
      → Result (Option V) × W × Cache
  cached_or_run full_key operation ttl finish w c (some v) = (ok (some v), w, c)
  cached_or_run full_key operation ttl finish w c none = keep full_key ttl finish c (operation w)

  -- The call reads the cache at `start`; a new result is stored at `finish`.
  unfoldable pub run :
      String → (W → Result (Option V) × W) → ℕ → ℕ → ℕ → W → Cache → Result (Option V) × W × Cache
  unfolding cache_key
  run key operation ttl start finish w c =
      cached_or_run (cache_key key) operation ttl finish w c (api.get (cache_key key) start c)
