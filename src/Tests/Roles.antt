-- ===== src/Tests/Roles.antt =====
-- The theorems on roles, permissions and assignments, at the tables of Tests/Environment.antt.
use godown_rbac_system.Prelude.{
  false, ◌≤◌, any, ◌==◌, ℕ, String, true, List, [], ◌∷◌, none, some, ◌≡◌, ◌≢◌, refl, inl, arith,
}
use godown_rbac_system.Models.{Role, signed_in, UserTenantRole}
use godown_rbac_system.World.{World, ok}
use godown_rbac_system.Rbac.Queries.{has_role, has_permission, get_role, get_user_permissions}
use godown_rbac_system.Rbac.Consistent.{IsConsistent}
use godown_rbac_system.Rbac.Writes.{create_role}
use godown_rbac_system.Rbac.Writes.Create.{
  create_role_unknown, create_role_granted, IsUndone, IsCreated,
}
use godown_rbac_system.Rbac.Writes.{create_default_roles, default_roles}
use godown_rbac_system.Rbac.Writes.Defaults.{IsReady, AllHeld, create_default_roles_twice}
use godown_rbac_system.Rbac.Assign.{assign_role, revoke_role}
use godown_rbac_system.Rbac.Checks.{has_role-get_role, has_permission-get_user_permissions}
use godown_rbac_system.Rbac.Assign.Correct.{
  assign_role-IsConsistent, assign_role-get_role, assign_role-others,
}
use godown_rbac_system.Rbac.Assign.Revoke.{revoke_role-get_role, revoke_role-others}
use godown_rbac_system.Tests.Environment.{
  test_env, test_world, test_db, ann, bob, tenant_one, tenant_two,
}

pub test_db-IsConsistent : IsConsistent test_db
test_db-IsConsistent = record {
  roles = (refl, (refl, (refl, tt)));
  memberships = (refl, (refl, (refl, tt)));
  scoped = (refl, (refl, (refl, tt)));
}

has_role-get_role_example :
    has_role test_env (some (signed_in bob)) tenant_two ("member" ∷ []) test_db ≡ true
unfolding get_role
has_role-get_role_example =
    has_role-get_role test_env bob tenant_two test_world test_db-IsConsistent ("member" ∷ [])

has_permission-get_user_permissions_example :
    has_permission test_env (some (signed_in bob)) tenant_one "stock.read" test_db ≡ true
unfolding get_user_permissions
has_permission-get_user_permissions_example =
    has_permission-get_user_permissions test_env bob tenant_one test_world test_db-IsConsistent
      "stock.read"

assign_role-IsConsistent_example :
    IsConsistent (assign_role test_env ann tenant_two "member" (some bob) test_world).1.db
assign_role-IsConsistent_example =
    assign_role-IsConsistent test_env ann tenant_two "member" (some bob) test_world
      test_db-IsConsistent refl

assign_role-get_role_example :
    (m : UserTenantRole) × ((assign_role test_env bob tenant_one "owner" (some ann) test_world).0
      ≡ ok m)
    × (m.assigned_by ≡ some 1)
    × ((get_role test_env bob tenant_one
          (assign_role test_env bob tenant_one "owner" (some ann) test_world).1).0
        ≡ ok (some "owner"))
assign_role-get_role_example =
    assign_role-get_role test_env bob tenant_one "owner" (some ann) test_world test_db-IsConsistent
      refl refl

bob_is_not_ann : bob.id ≢ ann.id
bob_is_not_ann e = ground arith

assign_role-others_example :
    ((slugs : List String)
      → has_role test_env
          (some (signed_in bob))
          tenant_two
          slugs
          (assign_role test_env ann tenant_two "member" none test_world).1.db
        ≡ has_role test_env (some (signed_in bob)) tenant_two slugs test_db)
    × ((code : String)
        → has_permission test_env
            (some (signed_in bob))
            tenant_two
            code
            (assign_role test_env ann tenant_two "member" none test_world).1.db
          ≡ has_permission test_env (some (signed_in bob)) tenant_two code test_db)
assign_role-others_example =
    assign_role-others test_env ann tenant_two "member" none test_world test_db-IsConsistent refl
      bob tenant_two (inl bob_is_not_ann)

revoke_role-get_role_example :
    ((revoke_role test_env bob tenant_one test_world).0 ≡ ok true)
    × ((get_role test_env bob tenant_one (revoke_role test_env bob tenant_one test_world).1).0
        ≡ ok none)
revoke_role-get_role_example = revoke_role-get_role test_env bob tenant_one test_world

revoke_role-others_example :
    ((slugs : List String)
      → has_role test_env
          (some (signed_in bob))
          tenant_two
          slugs
          (revoke_role test_env ann tenant_one test_world).1.db
        ≡ has_role test_env (some (signed_in bob)) tenant_two slugs test_db)
    × ((code : String)
        → has_permission test_env
            (some (signed_in bob))
            tenant_two
            code
            (revoke_role test_env ann tenant_one test_world).1.db
          ≡ has_permission test_env (some (signed_in bob)) tenant_two code test_db)
revoke_role-others_example =
    revoke_role-others test_env ann tenant_one test_world bob tenant_two (inl bob_is_not_ann)

create_role_unknown_example :
    IsUndone test_env tenant_one "Clerk" "clerk" 5 test_world refl refl "stock.burn" [] (
      create_role test_env tenant_one "Clerk" "clerk" 5
        (some ("stock.read" ∷ "stock.burn" ∷ []))
        test_world)
create_role_unknown_example =
    create_role_unknown test_env tenant_one "Clerk" "clerk" 5 test_world refl refl "stock.read"
      ("stock.burn" ∷ []) "stock.burn" [] test_db-IsConsistent.scoped refl

create_role_granted_example :
    IsCreated test_env tenant_one "Clerk" "clerk" 5 test_world refl refl
      ("stock.read" ∷ [])
      (create_role test_env tenant_one "Clerk" "clerk" 5 (some ("stock.read" ∷ [])) test_world)
create_role_granted_example =
    create_role_granted test_env tenant_one "Clerk" "clerk" 5 test_world refl refl "stock.read" []
      (refl, (refl, tt)) refl

pub test_world-IsReady : IsReady test_env test_world
test_world-IsReady = record { distinct = (refl, (refl, (refl, tt))); unused = fresh_key }
  where
    fresh_key : (k : ℕ) → 0 ≤ k → any (λ r. test_env.uuid4 k == r.id) test_db.roles ≡ false
    fresh_key k h = ground arith

pub apart_keys : (i j : ℕ) → test_env.uuid4 i ≡ test_env.uuid4 j → i ≡ j
apart_keys i j e = ground arith

-- The second tenant has the member already.
create_default_roles_twice_example :
    (rs : List Role) × (w' : World) × (create_default_roles test_env tenant_two test_world
      ≡ (ok rs, w'))
    × AllHeld test_env tenant_two apart_keys w' default_roles rs
    × (create_default_roles test_env tenant_two w' ≡ (ok rs, w'))
create_default_roles_twice_example =
    create_default_roles_twice test_env tenant_two apart_keys test_world test_world-IsReady
