-- ===== src/Demo/Config.antt =====
-- examples/demo_config.py: the demo tenants and the demo admin. Keys that the source writes as UUIDs
-- are the numbers that these stand for.
use godown_rbac_system.Prelude.{ℕ, String, List, [], ◌∷◌}

pub record DemoTenantSpec : Type 0 where
  pub id : ℕ
  pub name : String
  pub slug : String

pub record DemoAdminSpec : Type 0 where
  pub email : String
  pub username : String
  pub password : String
  pub first_name : String
  pub last_name : String
  pub role : String

-- `TENANT1_ID` and `TENANT2_ID`
abbrev pub demo_tenants : List DemoTenantSpec
demo_tenants =
    record { id = 302240678275694148452353; name = "Tenant One"; slug = "tenant1" }
    ∷ record { id = 302240678275694148452354; name = "Tenant Two"; slug = "tenant2" }
    ∷ []

abbrev pub demo_admin : DemoAdminSpec
demo_admin = record {
  email = "admin@tenant1.localhost";
  username = "admin@tenant1.localhost";
  password = "password123";
  first_name = "Demo";
  last_name = "Admin";
  role = "admin";
}
