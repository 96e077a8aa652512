-- ===== src/Tests/Notices.antt =====
-- The theorems on notifications, at the one that bob has.
use godown_rbac_system.Prelude.{refl, none, ◌≡◌}
use godown_rbac_system.Models.{signed_in}
use godown_rbac_system.Http.{Request, failure}
use godown_rbac_system.Common.Errors.{respond}
use godown_rbac_system.Notifications.{mark_read, patch_read}
use godown_rbac_system.Notifications.Unread.{IsRead, mark_read-IsRead, patch_read_foreign}
use godown_rbac_system.Tests.Environment.{test_env, test_world, ann, bob, hello}

mark_read-IsRead_example : IsRead test_env bob 71 test_world (mark_read test_env 71 bob test_world)
mark_read-IsRead_example = mark_read-IsRead test_env bob 71 hello test_world (refl, tt) refl

abbrev by_ann : Request
by_ann = record {
  path = "/api/v1/notifications/";
  host = "one.example";
  user = signed_in ann;
  tenant = none;
  x_tenant_id = none;
  forwarded_for = none;
  remote_addr = none;
  user_agent = none;
}

patch_read_foreign_example :
    respond (patch_read test_env by_ann 71) test_world ≡ (failure 404, test_world)
patch_read_foreign_example = patch_read_foreign test_env by_ann ann 71 test_world refl refl
