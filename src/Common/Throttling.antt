-- ===== src/Common/Throttling.antt =====
-- apps/common/throttling.py: under which key a request is counted, and at which rate.
use Prim.Native.String as Text
use godown_rbac_system.Prelude.{ℕ, String, List, Option, none, some}
use godown_rbac_system.Models.{Caller, anonymous, signed_in}
use godown_rbac_system.Dict.{lookup}

abbrev Rates : Type 0
Rates = List (String × String)

abbrev or_rate : Option String → String → String
or_rate none default = default
or_rate (some rate) default = rate

-- `get_rate` of LoginRateThrottle, RegisterRateThrottle and PasswordResetRateThrottle
unfoldable pub login_rate : Rates → String
login_rate rates = or_rate (lookup "login" rates) "5/minute"

unfoldable pub register_rate : Rates → String
register_rate rates = or_rate (lookup "register" rates) "3/hour"

unfoldable pub password_reset_rate : Rates → String
password_reset_rate rates = or_rate (lookup "password_reset" rates) "5/hour"

-- `get_rate` of AnonRateThrottle and UserRateThrottle; `none` is a KeyError.
unfoldable pub anon_rate : Rates → Option String
anon_rate rates = lookup "anon" rates

unfoldable pub user_rate : Rates → Option String
user_rate rates = lookup "user" rates

-- `cache_format` of DRF, `throttle_%(scope)s_%(ident)s`
abbrev throttle_key : String → String → String
throttle_key scope ident = Text.◌++◌ "throttle_" (Text.◌++◌ scope (Text.◌++◌ "_" ident))

-- `get_cache_key`, with the text of a key and with `get_ident(request)`: `none` is no limit.
unfoldable pub anon_key : Caller → String → Option String
anon_key anonymous ident = some (throttle_key "anon" ident)
anon_key (signed_in u) ident = none

unfoldable pub user_key : (ℕ → String) → Caller → String → Option String
user_key show_id anonymous ident = some (throttle_key "user" ident)
user_key show_id (signed_in u) ident = some (throttle_key "user" (show_id u.id))
