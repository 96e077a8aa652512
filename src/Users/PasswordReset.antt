-- ===== src/Users/PasswordReset.antt =====
-- services/auth/password_reset_service.py: `PasswordResetService`.
pub mod SingleUse
pub mod Views
pub mod Links
pub mod Sending
use godown_rbac_system.Prelude.{
  ℕ, String, Bool, true, false, not, List, Option, none, some, ◌≡◌, ◌≢◌, ◌+◌, ◌≤◌, ◌==◌, str_eq,
  if◌then◌else◌,
}
use Prim.Native.String as Text
use godown_rbac_system.Orm.{Got, found, missing, several, get}
use godown_rbac_system.Models.{User}
use godown_rbac_system.World.{
  Db, Env, Action, pure, raise, reads, modify, read_clock, validation, multiple_objects,
  malformed_link, spent_link, weak_password, ◌>>=◌, ◌>>◌,
}
use godown_rbac_system.Text.{strip}

-- What the service takes from Django: the encoding of keys in links, the token generator, the
-- password validators, the password hasher with the salt that it draws, and `str.lower`. Django
-- signs the stored password into a token, so that no token outlives a change of it; a token of a
-- user whose row did not change is good for PASSWORD_RESET_TIMEOUT.
pub record ResetApi : Type 0 where
  pub encode_uid : ℕ → String
  -- `none` where the text is malformed
  pub decode_uid : String → Option ℕ
  pub decode_uid-encode_uid : (k : ℕ) → decode_uid (encode_uid k) ≡ some k
  pub make_token : ℕ → User → String
  pub check_token : ℕ → User → String → Bool
  pub password_reset_timeout : ℕ
  pub check_token-make_token :
      (now later : ℕ) (user : User)
      → now ≤ later
      → later ≤ now + password_reset_timeout
      → check_token later user (make_token now user) ≡ true
  pub check_token_spent :
      (now later : ℕ) (user : User) (token password : String)
      → check_token now user token ≡ true
      → password ≢ user.password
      → check_token later (record user { password = password }) token ≡ false
  pub is_weak : User → String → Bool
  pub make_password : ℕ → String → String
  pub lower : String → String

-- The arguments of `send_password_reset_email.delay`; the link is made of the last two.
pub record ResetMail : Type 0 where
  pub recipient_email : String
  pub user_name : String
  pub uid : String
  pub token : String

-- `user.get_full_name() or user.username`
abbrev pub mail_name : User → String
mail_name user =
    let name = strip (Text.◌++◌ (Text.◌++◌ user.first_name " ") user.last_name) in
    if str_eq name "" then user.username else name

module _ (env : Env) (api : ResetApi) where
  abbrev mail_to : ℕ → Got User → Action (Option ResetMail)
  mail_to now (found user) = pure (
      some (record {
        recipient_email = user.email;
        user_name = mail_name user;
        uid = api.encode_uid user.id;
        token = api.make_token now user;
      }))
  mail_to now missing = pure none
  mail_to now several = raise multiple_objects

  -- The result is the message that is queued, if any.
  unfoldable pub request_reset : String → Action (Option ResetMail)
  unfolding strip
  request_reset email = do
    now ← read_clock env
    reads
        (λ db. mail_to now (get env.users (λ u. str_eq u.email (api.lower (strip email))) db.users))

  abbrev known_user : Got User → Action User
  known_user (found user) = pure user
  known_user missing = raise (validation malformed_link)
  known_user several = raise multiple_objects

  abbrev user_of_key : Option ℕ → Action User
  user_of_key none = raise (validation malformed_link)
  user_of_key (some k) = reads (λ db. known_user (get env.users (λ u. u.id == k) db.users))

  -- `_user_from_uid`
  unfoldable pub user_from_uid : String → Action User
  user_from_uid uid = user_of_key (api.decode_uid uid)

  -- `user.set_password(…)` and `user.save(update_fields=["password"])`
  unfoldable pub save_password : User → String → Action (Unit {0})
  save_password user new_password = do
    salt ← read_clock env
    modify (λ db. record db {
      users =
          env.users.update (λ v. v.id == user.id)
            (λ v. record v { password = api.make_password salt new_password }) db.users;
    })

  abbrev with_valid_token : User → String → Bool → Action (Unit {0})
  with_valid_token user new_password false = raise (validation spent_link)
  with_valid_token user new_password true =
      if api.is_weak user new_password
      then raise (validation weak_password)
      else save_password user new_password

  unfoldable pub confirm_reset : String → String → String → Action (Unit {0})
  unfolding user_from_uid save_password
  confirm_reset uid token new_password = do
    user ← user_from_uid uid
    now ← read_clock env
    with_valid_token user new_password (api.check_token now user token)
