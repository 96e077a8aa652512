-- ===== src/Tests/Registrations.antt =====
-- The theorems on registration, at a third user.
use godown_rbac_system.Prelude.{true, false}
use godown_rbac_system.Text.{strip}
use godown_rbac_system.Users.Registration.{CreateUserInput, UserApi, create_user}
use godown_rbac_system.Users.Registration.Emails.{Outcome, create_user-Outcome}
use godown_rbac_system.Tests.Environment.{test_env, test_world}

abbrev pub test_api : UserApi
test_api = record {
  is_weak = λ password username email. false;
  make_password = λ salt password. password;
  is_clean = λ user. true;
  normalize_username = λ s. s;
  lower = λ s. s;
}

abbrev eve : CreateUserInput
eve = record {
  email = " eve@one.example";
  username = "eve";
  password = "SecurePass123!";
  first_name = "Eve";
  last_name = "";
}

create_user-Outcome_example :
    Outcome test_world "eve@one.example" (create_user test_env test_api eve test_world)
unfolding strip
create_user-Outcome_example = create_user-Outcome test_env test_api eve test_world
