-- ===== src/Tests/Requests.antt =====
-- The theorems on views, at requests of bob, who is a member of both tenants, and of ann, who owns
-- the first.
use godown_rbac_system.Prelude.{
  ℕ, ◌≤◌, length, select, inl, inr, Bool-cases, str_eq, arith, String, Bool, false, [], ◌∷◌, Option,
  none, some, ◌≡◌, refl,
}
use godown_rbac_system.Orm.Distinct.{Distinct}
use godown_rbac_system.Models.{UserTenantRole, signed_in, Caller, Tenant, tenant_clash}
use godown_rbac_system.World.{ok}
use godown_rbac_system.Http.{Request, success, failure}
use godown_rbac_system.Common.Errors.{respond}
use godown_rbac_system.Rbac.Queries.{has_role}
use godown_rbac_system.Rbac.Views.{RoleCreate, RoleAssign, post_role, post_assign, post_revoke}
use godown_rbac_system.Rbac.Queries.{get_role}
use godown_rbac_system.Rbac.Consistent.{IsConsistent}
use godown_rbac_system.Rbac.Views.Assigning.{post_assign-get_role}
use godown_rbac_system.Features.{is_flag}
use godown_rbac_system.Features.Views.{Toggle, post_toggle}
use godown_rbac_system.Features.Views.Denied.{posts_denied}
use godown_rbac_system.Audit.Views.{Filters, list_logs}
use godown_rbac_system.Audit.Views.Scope.{list_logs_of_other}
use godown_rbac_system.Tests.Environment.{
  test_env, test_world, test_db, log_two, ann, bob, tenant_one, tenant_two,
}

abbrev request_of : Caller → Option Tenant → Option String → Request
request_of user tenant header = record {
  path = "/api/v1/";
  host = "one.example:8000";
  user = user;
  tenant = tenant;
  x_tenant_id = header;
  forwarded_for = none;
  remote_addr = none;
  user_agent = none;
}

abbrev by_bob : Request
by_bob = request_of (signed_in bob) (some tenant_one) none

abbrev by_ann : Request
by_ann = request_of (signed_in ann) (some tenant_two) (some "one")

tenants-Distinct : Distinct tenant_clash test_db.tenants
tenants-Distinct = (refl, (refl, tt))

abbrev promote_bob : Option RoleAssign
promote_bob = some (record { user_id = 2; role = "owner" })

posts_denied_example :
    ((body : Option RoleCreate)
      → respond (post_role test_env by_bob 1 body) test_world ≡ (failure 403, test_world))
    × ((body : Option RoleAssign)
        → respond (post_assign test_env by_bob 1 body) test_world ≡ (failure 403, test_world))
    × ((body : Option ℕ)
        → respond (post_revoke test_env by_bob 1 body) test_world ≡ (failure 403, test_world))
    × ((body : Toggle)
        → respond (post_toggle test_env by_bob 1 body) test_world ≡ (failure 403, test_world))
unfolding has_role
posts_denied_example = posts_denied test_env by_bob 1 test_world tenants-Distinct refl

abbrev no_filters : Filters
no_filters = record { action = none; actor = none }

abbrev never : String → String → Bool
never s t = false

list_logs_of_other_example :
    list_logs test_env never by_ann no_filters test_world
    ≡ (ok (success 200 (log_two ∷ [])), test_world)
unfolding has_role
list_logs_of_other_example =
    list_logs_of_other test_env never by_ann no_filters ann test_world refl tenant_one tenant_two
      "one" refl refl refl refl refl refl

-- ann has no role in the second tenant.
-- ann's own request at her tenant's host.
abbrev by_owner : Request
by_owner = request_of (signed_in ann) (some tenant_one) none

consistent : IsConsistent test_db
consistent = record {
  roles = (refl, (refl, (refl, tt)));
  memberships = (refl, (refl, (refl, tt)));
  scoped = (refl, (refl, (refl, tt)));
}

post_assign-get_role_example :
    (m : UserTenantRole) × ((respond (post_assign test_env by_owner 1 promote_bob) test_world).0
      ≡ success 201 m)
    × (m.assigned_by ≡ some 1)
    × ((get_role test_env bob tenant_one
          (respond (post_assign test_env by_owner 1 promote_bob) test_world).1).0
        ≡ ok (some "owner"))
unfolding has_role
post_assign-get_role_example =
    post_assign-get_role test_env by_owner ann tenant_one bob
      (record { user_id = 2; role = "owner" }) test_world refl tenants-Distinct refl refl consistent
      refl refl refl

one_global_flag : (name : String) → length (select (is_flag none name) test_db.flags) ≤ 1
one_global_flag name = elim (Bool-cases (str_eq "beta" name)) [
  | inl same ↦ rw same (ground arith)
  | inr other ↦ rw other (ground arith)
]

-- beta is off for the first tenant.
