-- ===== src/Common/Records.antt =====
-- apps/common/models.py: `BaseModel` with its soft deletion, at the model `Record`.
pub mod Trash
pub mod Restore
use godown_rbac_system.Prelude.{
  ℕ, String, Bool, true, false, not, ◌&&◌, List, Option, none, some, ◌==◌, length, if◌then◌else◌,
}
use godown_rbac_system.Orm.{Objects, exists}
use godown_rbac_system.World.{Result, ok, err, database_error}

pub record Record : Type 0 where
  pub id : ℕ
  pub created_at : ℕ
  pub updated_at : ℕ
  pub created_by : Option ℕ
  pub updated_by : Option ℕ
  pub is_deleted : Bool
  pub deleted_at : Option ℕ
  pub deleted_by : Option ℕ
  pub title : String

abbrev pub record_clash : Record → Record → Bool
record_clash r s = r.id == s.id

abbrev pub or_else : Option ℕ → Option ℕ → Option ℕ
or_else none old = old
or_else (some k) old = some k

-- The row of an instance.
abbrev pub is_row : Record → Record → Bool
is_row r s = s.id == r.id

-- The columns of `update_fields` as the instance has them.
abbrev pub set_marks : Record → Record → Record
set_marks r s = record s {
  is_deleted = r.is_deleted;
  deleted_at = r.deleted_at;
  deleted_by = r.deleted_by;
}

abbrev pub trashed_now : ℕ → Record → Record
trashed_now now r = record r { is_deleted = true; deleted_at = some now }

-- The instance after `delete` and after `restore`.
abbrev pub as_deleted : Option ℕ → ℕ → Record → Record
as_deleted deleted_by now r = record r {
  is_deleted = true;
  deleted_at = some now;
  deleted_by = or_else deleted_by r.deleted_by;
}

abbrev pub as_restored : Record → Record
as_restored r = record r { is_deleted = false; deleted_at = none; deleted_by = none }

module _ (all_objects : Objects record_clash) where
  -- `Record.objects.filter(…)`, by SoftDeleteManager
  unfoldable pub active : (Record → Bool) → List Record → List Record
  active p t = all_objects.filter (λ r. not r.is_deleted && p r) t

  -- `SoftDeleteQuerySet.delete` and `.hard_delete`, at `Record.objects.filter(…)`
  unfoldable pub delete_rows : (Record → Bool) → ℕ → List Record → ℕ × List Record
  unfolding active
  delete_rows p now t =
      (length (active p t), all_objects.update (λ r. not r.is_deleted && p r) (trashed_now now) t)

  unfoldable pub hard_delete_rows : (Record → Bool) → List Record → ℕ × List Record
  unfolding active
  hard_delete_rows p t = (length (active p t), all_objects.delete (λ r. not r.is_deleted && p r) t)

  -- `save(update_fields=["is_deleted", "deleted_at", "deleted_by"])`, which goes by the base
  -- manager; the result is the instance and the table.
  abbrev pub save_marks : Record → List Record → Result (Record × List Record)
  save_marks r t =
      if exists all_objects (is_row r) t
      then ok (r, all_objects.update (is_row r) (set_marks r) t)
      else err database_error

  -- `BaseModel.delete`, at the time `now`
  unfoldable pub delete : Record → Option ℕ → ℕ → List Record → Result (Record × List Record)
  delete r deleted_by now t = save_marks (as_deleted deleted_by now r) t

  -- `BaseModel.hard_delete`
  unfoldable pub hard_delete : Record → List Record → List Record
  hard_delete r t = all_objects.delete (is_row r) t

  unfoldable pub restore : Record → List Record → Result (Record × List Record)
  restore r t = save_marks (as_restored r) t
