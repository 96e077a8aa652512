-- ===== src/Tests/Resets.antt =====
-- The theorem on password links, with a generator whose token is the stored password.
use godown_rbac_system.Prelude.{
  Option, none, arith, ℕ, zero, suc, ap, String, true, false, [], ◌∷◌, some, ◌≡◌, ◌≢◌, refl, sym,
  ◌∙◌, inl, inr, ◌==◌, select, str_eq, eq_iff, Bool-cases,
}
use godown_rbac_system.Models.{User, anonymous}
use godown_rbac_system.Orm.{found, several, one, get}
use godown_rbac_system.Http.{Request, success, failure}
use godown_rbac_system.Text.{strip}
use godown_rbac_system.World.{ok}
use godown_rbac_system.Users.PasswordReset.{ResetApi, ResetMail}
use godown_rbac_system.Users.PasswordReset.Views.{post_reset, post_confirm}
use godown_rbac_system.Users.PasswordReset.Links.{
  is_named, GoesTo, OnlyLogged, post_reset_uniform, post_confirm-post_reset,
}
use godown_rbac_system.Tests.Environment.{test_env, test_world, bob}

pub spent :
    (now later : ℕ) (user : User) (token password : String)
    → str_eq user.password token ≡ true
    → password ≢ user.password
    → str_eq password token ≡ false
spent now later user token password h k = elim (Bool-cases (str_eq password token)) [
  | inr other ↦ other
  | inl same ↦
      elim (k ((eq_iff password token).0 same ∙ sym ((eq_iff user.password token).0 h))) [ ]
]

-- A key as that many strokes.
abbrev pub show : ℕ → String
show zero = String.[]
show (suc k) = String.◌∷◌ "I" (show k)

abbrev pub length_of : String → ℕ
length_of String.[] = 0
length_of (String.◌∷◌ c s) = suc (length_of s)

pub length_of-show : (k : ℕ) → length_of (show k) ≡ k
length_of-show zero = refl
length_of-show (suc k) = ap suc (length_of-show k)

abbrev test_api : ResetApi
test_api = record {
  encode_uid = show;
  decode_uid = λ s. some (length_of s);
  decode_uid-encode_uid = λ k. ap some (length_of-show k);
  password_reset_timeout = 259200;
  check_token-make_token = λ now later user h k. (eq_iff user.password user.password).1 refl;
  make_token = λ now user. user.password;
  check_token = λ now user token. str_eq user.password token;
  check_token_spent = spent;
  is_weak = λ user s. false;
  make_password = λ salt s. s;
  lower = λ s. s;
}

new_hash : "better" ≢ bob.password
new_hash e = let other : str_eq "better" "hash" ≡ true = (eq_iff "better" "hash").1 e in cc

abbrev plain_request : Request
plain_request = record {
  path = "/api/v1/auth/password/reset/";
  host = "one.example";
  user = anonymous;
  tenant = none;
  x_tenant_id = none;
  forwarded_for = none;
  remote_addr = some "10.0.0.1";
  user_agent = none;
}

bob_named :
    select
      (is_named test_env test_api plain_request "bob@one.example" test_world)
      test_world.db.users
    ≡ bob ∷ []
unfolding strip
bob_named = refl

one_named :
    get test_env.users
      (is_named test_env test_api plain_request "bob@one.example" test_world)
      test_world.db.users
    ≢ several
one_named e = let other : found bob ≡ several = ap one (sym bob_named) ∙ e in cc

post_reset_uniform_example :
    (mail : Option ResetMail) × ((post_reset test_env test_api plain_request
        (some "bob@one.example")
        test_world).0
      ≡ ok (success 200 tt, mail))
    × GoesTo test_env test_api plain_request "bob@one.example" test_world mail
    × OnlyLogged test_env test_api plain_request "bob@one.example" test_world
        (post_reset test_env test_api plain_request (some "bob@one.example") test_world).1.db
post_reset_uniform_example =
    post_reset_uniform test_env test_api plain_request "bob@one.example" test_world one_named

post_confirm-post_reset_example :
    (mail : ResetMail) × ((post_reset test_env test_api plain_request
        (some "bob@one.example")
        test_world).0
      ≡ ok (success 200 tt, some mail))
    × (let open_link = λ (p : String).
          post_confirm test_env test_api
            (some (record { uid = mail.uid; token = mail.token; new_password = p })) in
        ((open_link "better" test_world).0 ≡ ok (success 200 tt))
        × (select (λ x. x.id == 2) (open_link "better" test_world).1.db.users
            ≡ record bob { password = "better" } ∷ [])
        × ((other : String)
            → (open_link other (open_link "better" test_world).1).0 ≡ ok (failure 400)))
post_confirm-post_reset_example =
    post_confirm-post_reset test_env test_api plain_request "bob@one.example" test_world bob
      test_world "better" bob_named refl (omega arith) (omega arith) refl new_hash
