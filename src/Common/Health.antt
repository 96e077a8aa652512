-- ===== src/Common/Health.antt =====
-- apps/common/health_checks.py and apps/common/views.py.
use godown_rbac_system.Prelude.{
  ℕ, String, Bool, false, ◌&&◌, List, [], ◌∷◌, Option, none, some, str_eq, if◌then◌else◌,
}

-- The database and Redis as the probes use them: `false` and `none` are an exception.
pub record Backends (Cache : Type 0) : Type 0 where
  pub select_one : Bool
  pub set : String → String → ℕ → Cache → Option Cache
  pub get : String → Cache → Option (Option String)
  pub delete : String → Cache → Option Cache

module _ {Cache : Type 0} (backends : Backends Cache) where
  -- `none` is an exception.
  unfoldable pub check_database : Option String
  check_database = if backends.select_one then some "ok" else none

  abbrev deleted_probe : Option Cache → Cache → Option String × Cache
  deleted_probe none c = (none, c)
  deleted_probe (some c') c = (some "ok", c')

  abbrev is_ok : Option String → Bool
  is_ok none = false
  is_ok (some s) = str_eq s "ok"

  abbrev read_probe : Option (Option String) → Cache → Option String × Cache
  read_probe none c = (none, c)
  read_probe (some value) c =
      if is_ok value then deleted_probe (backends.delete "health:redis" c) c else (some "error", c)

  abbrev set_probe : Option Cache → Cache → Option String × Cache
  set_probe none c = (none, c)
  set_probe (some c') c = read_probe (backends.get "health:redis" c') c'

  unfoldable pub check_redis : Cache → Option String × Cache
  check_redis c = set_probe (backends.set "health:redis" "ok" 5 c) c

  -- `except Exception`
  abbrev or_error : Option String → String
  or_error none = "error"
  or_error (some s) = s

  unfoldable pub run_readiness_checks : Cache → (List (String × String) × Bool) × Cache
  unfolding check_database check_redis
  run_readiness_checks c =
      let (redis, after) = check_redis c in
      let database = or_error check_database in
      (
        (
          ("database", database) ∷ ("redis", or_error redis) ∷ [],
          str_eq database "ok" && str_eq (or_error redis) "ok",
        ),
        after,
      )

  -- `ReadinessCheckView.get`: the status, and the body beside it
  unfoldable pub get_ready : Cache → (ℕ × String × List (String × String)) × Cache
  unfolding run_readiness_checks
  get_ready c =
      let ((checks, all_ok), after) = run_readiness_checks c in
      ((if all_ok then 200 else 503, if all_ok then "ok" else "not_ready", checks), after)
