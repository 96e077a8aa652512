-- ===== src/Tests/Erasures.antt =====
-- The theorems on the erasure of a user, at bob.
use godown_rbac_system.Prelude.{ℕ, String, Option, none, some, refl, str_eq, if◌then◌else◌, false}
use godown_rbac_system.Users.Erasure.{anonymize}
use godown_rbac_system.Users.Erasure.Laws.{IsErased, anonymize-IsErased}
use godown_rbac_system.Users.Erasure.Command.{Outcome, delete_user_data, delete_user_data-Outcome}
use godown_rbac_system.Tests.Environment.{test_env, test_world, bob}

anonymize-IsErased_example : IsErased test_env bob test_world (anonymize test_env bob test_world)
anonymize-IsErased_example = anonymize-IsErased test_env bob test_world refl

abbrev key_of : String → Option ℕ
key_of text = if str_eq text "2" then some 2 else none

abbrev small : String → String
small s = s

-- What is typed is " yes".
delete_user_data-Outcome_example :
    Outcome test_env key_of small "2" false " yes" 2 bob test_world refl refl
      (λ hard. delete_user_data test_env key_of small "2" hard false " yes" test_world)
delete_user_data-Outcome_example =
    delete_user_data-Outcome test_env key_of small "2" false " yes" 2 bob test_world refl refl
