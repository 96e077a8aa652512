-- ===== src/Users/Registration.antt =====
-- services/users/user_service.py: `UserService`, and the views that register users,
-- `UserCreateView` of apps/users/views.py and `RegisterView` of apps/authentication/views.py.
pub mod Emails
use Prim.Native.Char.{code}
use Prim.Native.String as Text
use godown_rbac_system.Prelude.{
  ℕ, String, Bool, true, false, not, ◌||◌, List, [], ◌∷◌, Option, none, some, ◌==◌, str_eq,
  if◌then◌else◌,
}
use godown_rbac_system.Orm.{exists}
use godown_rbac_system.Models.{User, AuditAction}
use godown_rbac_system.World.{
  World, Db, Env, Action, Exc, Result, ok, err, pure, raise, gets, reads, or_raise, modify, atomic,
  draw_uuid, read_clock, validation, conflict, integrity_error, model_invalid, weak_password,
  email_required, username_required, password_required, username_taken, email_taken,
  credentials_taken, ◌>>=◌, ◌>>◌,
}
use godown_rbac_system.Http.{Request, Response, success, failure}
use godown_rbac_system.Text.{strip}
use godown_rbac_system.Audit.Service.{log}
use godown_rbac_system.Rbac.Views.{validated}

pub record CreateUserInput : Type 0 where
  pub email : String
  pub username : String
  pub password : String
  pub first_name : String
  pub last_name : String

-- What the service takes from Django and Python: the password validators, the hasher with its
-- salt, the field validators and the normal form of names behind `full_clean`, and `str.lower`.
pub record UserApi : Type 0 where
  pub is_weak : String → String → String → Bool
  pub make_password : ℕ → String → String
  pub is_clean : User → Bool
  pub normalize_username : String → String
  pub lower : String → String

-- `"@" in s`
unfoldable pub has_at : String → Bool
has_at String.[] = false
has_at (String.◌∷◌ c s) = code c == b'@' || has_at s

abbrev pub full_name : User → String
full_name user = strip (Text.◌++◌ (Text.◌++◌ user.first_name " ") user.last_name)

unfoldable pub get_display_name : User → String
unfolding strip
get_display_name user = if str_eq (full_name user) "" then user.username else full_name user

-- A test whose failure raises.
abbrev pub check : Bool → Exc → Action (Unit {0})
check true e = pure tt
check false e = raise e

-- `except IntegrityError`
abbrev pub on_integrity_error : Exc → Result User × World → Result User × World
on_integrity_error e (ok u, w) = (ok u, w)
on_integrity_error e (err integrity_error, w) = (err e, w)
on_integrity_error e (err other, w) = (err other, w)

module _ (env : Env) (api : UserApi) where
  -- `user.full_clean()`: the fields, the normal form of the name (`normalize_email` leaves an address
  -- in lower case as it is), and that no row has this name.
  unfoldable pub full_clean : User → Action User
  full_clean user = do
    check (api.is_clean user) model_invalid
    let cleaned : User = record user { username = api.normalize_username user.username }
    taken ← gets (λ w. exists env.users (λ u. str_eq u.username cleaned.username) w.db.users)
    check (not taken) model_invalid
    pure cleaned

  -- The block under `transaction.atomic()`; the key is the one that the database gives.
  unfoldable pub save_user : CreateUserInput → String → String → Action User
  unfolding strip full_clean
  save_user fields username email = atomic (do
    salt ← read_clock env
    id ← draw_uuid env
    let user : User = record {
      id = id;
      username = username;
      email = email;
      first_name = strip fields.first_name;
      last_name = strip fields.last_name;
      password = api.make_password salt fields.password;
      is_active = true;
      is_superuser = false;
    }
    cleaned ← full_clean user
    rows ← reads (λ db. or_raise integrity_error (env.users.create cleaned db.users))
    modify (λ db. record db { users = rows })
    pure cleaned)

  abbrev pub save_or_conflict : CreateUserInput → String → String → Action User
  save_or_conflict fields username email w =
      on_integrity_error (conflict credentials_taken) (save_user fields username email w)

  -- The checks, in order. The user that is returned is the one whom the welcome mail is queued for.
  unfoldable pub register_user : CreateUserInput → String → String → Action User
  unfolding save_user has_at
  register_user fields username email w =
      if not (has_at email)
      then raise (validation email_required) w
      else if str_eq username ""
      then raise (validation username_required) w
      else if str_eq fields.password ""
      then raise (validation password_required) w
      else if api.is_weak fields.password username email
      then raise (validation weak_password) w
      else if exists env.users (λ u. str_eq u.username username) w.db.users
      then raise (conflict username_taken) w
      else if exists env.users (λ u. str_eq u.email email) w.db.users
      then raise (conflict email_taken) w
      else save_or_conflict fields username email w

  unfoldable pub create_user : CreateUserInput → Action User
  unfolding register_user strip
  create_user fields = register_user fields (strip fields.username) (api.lower (strip fields.email))

  abbrev by_exception : Result User × World → Result (Response User) × World
  by_exception (ok u, w) = (ok (success 201 u), w)
  by_exception (err (validation message), w) = (ok (failure 400), w)
  by_exception (err (conflict message), w) = (ok (failure 409), w)
  by_exception (err e, w) = (err e, w)

  -- `UserCreateView.post`, open to all
  unfoldable pub post_user : Option CreateUserInput → Action (Response User)
  unfolding create_user
  post_user body = do fields ← validated "user" body; λ w. by_exception (create_user fields w)

  abbrev logged : Request → Result (Response User) × World → Result (Response User) × World
  logged request (ok (success status u), w) = (
    ok (success status u),
    (log env AuditAction.user_registered (some request) none none "User" (env.show_id u.id)
        (("username", u.username) ∷ []) w).1,
  )
  logged request (r, w) = (r, w)

  -- `RegisterView.post` of apps/authentication/views.py
  unfoldable pub post_register : Request → Option CreateUserInput → Action (Response User)
  unfolding create_user
  post_register request body = do
    fields ← validated "user" body
    λ w. logged request (by_exception (create_user fields w))
