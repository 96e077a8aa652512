-- ===== src/Tests/Trash.antt =====
-- The theorems on soft deletion, at two records.
use godown_rbac_system.Prelude.{ℕ, false, List, [], ◌∷◌, Option, none, some, ◌≡◌, refl}
use godown_rbac_system.Orm.{Objects}
use godown_rbac_system.World.{ok}
use godown_rbac_system.Common.Records.{Record, record_clash, delete, restore, hard_delete, or_else}
use godown_rbac_system.Common.Records.Trash.{
  Refines, to_trash, out_of_trash, removed, view, update, operations-Refines,
}
use godown_rbac_system.Common.Records.Restore.{restore-delete}
use godown_rbac_system.Tests.Environment.{list_objects}

abbrev all_objects : Objects record_clash
all_objects = list_objects record_clash

abbrev alpha : Record
alpha = record {
  id = 1;
  created_at = 0;
  updated_at = 0;
  created_by = some 1;
  updated_by = none;
  is_deleted = false;
  deleted_at = none;
  deleted_by = none;
  title = "Alpha";
}

abbrev beta : Record
beta = record alpha { id = 2; title = "Beta" }

abbrev table : List Record
table = alpha ∷ beta ∷ []

operations-Refines_example :
    ((deleted_by : Option ℕ) (now : ℕ)
      → Refines alpha table refl all_objects
          (to_trash (some now) (or_else deleted_by none))
          (delete all_objects alpha deleted_by now table))
    × Refines alpha table refl all_objects out_of_trash (restore all_objects alpha table)
    × ((k : ℕ) → view (hard_delete all_objects alpha table) k ≡ update (view table) 1 removed k)
operations-Refines_example = operations-Refines alpha table refl all_objects

restore-delete_example :
    (r' : Record) × (t' : List Record) × (delete all_objects alpha (some 2) 7 table ≡ ok (r', t'))
    × (restore all_objects r' t' ≡ ok (alpha, table))
restore-delete_example = restore-delete all_objects alpha table refl (refl, refl, refl) (some 2) 7
