-- ===== src/Tests/Flags.antt =====
-- The theorems on feature flags, at the tables of Tests/Environment.antt: beta is on for all but
-- the first tenant.
use godown_rbac_system.Prelude.{true, some, ◌≡◌, ◌≢◌, refl, inr, arith}
use godown_rbac_system.Orm.Distinct.{Distinct}
use godown_rbac_system.Models.{FeatureFlag, flag_clash}
use godown_rbac_system.World.{ok}
use godown_rbac_system.Features.{is_feature_active, get_active_features, set_feature}
use godown_rbac_system.Features.Laws.{is_feature_active-get_active_features}
use godown_rbac_system.Features.Set.{set_feature-is_feature_active, set_feature-others}
use godown_rbac_system.Tests.Environment.{test_env, test_world, test_db, tenant_one, tenant_two}

flags-Distinct : Distinct flag_clash test_db.flags
flags-Distinct = (refl, (refl, tt))

is_feature_active-get_active_features_example :
    is_feature_active test_env (some tenant_two) "beta" test_db ≡ true
unfolding get_active_features
is_feature_active-get_active_features_example =
    is_feature_active-get_active_features test_env "beta" test_db (some tenant_two) flags-Distinct
      (ground arith)

set_feature-is_feature_active_example :
    (flag : FeatureFlag) × ((set_feature test_env (some tenant_one) "beta" true test_world).0
      ≡ ok flag)
    × (flag.is_active ≡ true)
    × (is_feature_active test_env
          (some tenant_one)
          "beta"
          (set_feature test_env (some tenant_one) "beta" true test_world).1.db
        ≡ true)
set_feature-is_feature_active_example =
    set_feature-is_feature_active test_env tenant_one "beta" true test_world flags-Distinct refl

set_feature-others_example :
    is_feature_active test_env
      (some tenant_two)
      "beta"
      (set_feature test_env (some tenant_one) "beta" true test_world).1.db
    ≡ is_feature_active test_env (some tenant_two) "beta" test_db
set_feature-others_example =
    set_feature-others test_env tenant_one "beta" true test_world flags-Distinct refl
      (some tenant_two) "beta" (inr two_is_not_one)
  where
    two_is_not_one : tenant_two.id ≢ tenant_one.id
    two_is_not_one e = ground arith
