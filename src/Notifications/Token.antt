-- ===== src/Notifications/Token.antt =====
-- apps/notifications/middleware.py: who is behind a WebSocket, by the token that it brings.
pub mod Erased
use Prim.Native.String as Text
use godown_rbac_system.Prelude.{
  ℕ, suc, zero, String, Bool, true, false, ◌&&◌, ◌||◌, List, [], ◌∷◌, Option, none, some, ◌≡◌, ◌==◌,
  str_eq, if◌then◌else◌,
}
use godown_rbac_system.Orm.{Got, found, missing, several, get}
use godown_rbac_system.Models.{User, Caller, anonymous, signed_in}
use godown_rbac_system.World.{Db, Env, Result, ok, err, multiple_objects}
use godown_rbac_system.Text.{strip, starts_with, drop}
use godown_rbac_system.Common.Mail.{is_falsy}

-- What the middleware takes from simplejwt and Python: the key that an access token names, if the
-- token is valid at a time; the values of `token` in a query string; and `str.lower`.
pub record TokenApi : Type 0 where
  pub access_token : ℕ → String → Option ℕ
  pub query_tokens : String → List String
  pub lower : String → String

module _ (env : Env) (api : TokenApi) where
  abbrev user_found : Got User → Result Caller
  user_found (found u) = ok (signed_in u)
  user_found missing = ok anonymous
  user_found several = err multiple_objects

  abbrev user_with_key : Option ℕ → Db → Result Caller
  user_with_key none db = ok anonymous
  user_with_key (some k) db = user_found (get env.users (λ u. u.id == k) db.users)

  -- `_get_user_from_token`
  unfoldable pub user_from_token : ℕ → String → Db → Result Caller
  user_from_token now raw_token db = user_with_key (api.access_token now raw_token) db

  abbrev bearer : String → Option String
  bearer auth_header =
      if starts_with "bearer " (api.lower auth_header)
      then some (strip (drop 7 auth_header))
      else none

  abbrev first_token : List String → Option String
  first_token [] = none
  first_token (t ∷ ts) = some t

  -- The token of the header, or else that of the query string.
  unfoldable pub raw_token : String → String → Option String
  unfolding strip starts_with
  raw_token auth_header query_string =
      let of_header = bearer auth_header in
      if is_falsy of_header then first_token (api.query_tokens query_string) else of_header

  abbrev caller_of : ℕ → Option String → Db → Result Caller
  caller_of now none db = ok anonymous
  caller_of now (some t) db = if str_eq t "" then ok anonymous else user_from_token now t db

  -- `JWTAuthMiddleware.__call__`: what becomes `scope["user"]`.
  unfoldable pub jwt_auth : ℕ → String → String → Db → Result Caller
  unfolding raw_token user_from_token
  jwt_auth now auth_header query_string db = caller_of now (raw_token auth_header query_string) db
