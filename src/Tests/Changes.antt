-- ===== src/Tests/Changes.antt =====
-- The theorems on the audit trail, at a role that was renamed.
use godown_rbac_system.Prelude.{some, ◌≡◌, refl, [], ◌∷◌}
use godown_rbac_system.Audit.Signals.{diff, Fields}
use godown_rbac_system.Audit.Signals.Diff.{value_in, diff_lem}

abbrev stored : Fields
stored = ("name", "Clerk") ∷ ("slug", "clerk") ∷ ("password", "old") ∷ []

abbrev renamed : Fields
renamed = ("name", "Accountant") ∷ ("slug", "clerk") ∷ ("password", "new") ∷ []

diff_lem_example :
    (value_in "name" (diff stored renamed).0 ≡ some (some "Clerk"))
    × (value_in "name" (diff stored renamed).1 ≡ some (some "Accountant"))
diff_lem_example = diff_lem stored renamed "name" (refl, (refl, (refl, tt)))
