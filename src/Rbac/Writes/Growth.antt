-- ===== src/Rbac/Writes/Growth.antt =====
-- What adding default roles leaves as it was.
use godown_rbac_system.Prelude.{◌≤◌, Bool, true, ◌≡◌, refl, ◌∙◌, any, arith}
use godown_rbac_system.Models.{Role}
use godown_rbac_system.World.{World}

-- No role goes, no membership changes, and the clock and uuid4 are read on.
pub record Grows (w w' : World) : Type 0 where
  pub memberships : w'.db.memberships ≡ w.db.memberships
  pub more : (p : Role → Bool) → any p w.db.roles ≡ true → any p w'.db.roles ≡ true
  pub ticks : w.ticks ≤ w'.ticks

pub Grows-refl : (w : World) → Grows w w
Grows-refl w = record { memberships = refl; more = λ p h. h; ticks = ground arith }

pub Grows-trans : (u v w : World) → Grows u v → Grows v w → Grows u w
Grows-trans u v w g h = record {
  memberships = h.memberships ∙ g.memberships;
  more = λ p e. h.more p (g.more p e);
  ticks = let first = g.ticks in let next = h.ticks in ground arith;
}

-- Neither tenants nor domains change.
pub record SameHosts (w w' : World) : Type 0 where
  pub tenants : w'.db.tenants ≡ w.db.tenants
  pub domains : w'.db.domains ≡ w.db.domains

pub SameHosts-refl : (w : World) → SameHosts w w
SameHosts-refl w = record { tenants = refl; domains = refl }

pub SameHosts-trans : (u v w : World) → SameHosts u v → SameHosts v w → SameHosts u w
SameHosts-trans u v w g h = record {
  tenants = h.tenants ∙ g.tenants;
  domains = h.domains ∙ g.domains;
}
