-- ===== src/Common/Records/Trash.antt =====
-- What soft deletion promises: each record is live, in the trash or gone, and an operation changes
-- this of one record only.
use godown_rbac_system.Prelude.{
  ℕ, String, true, false, not, ◌&&◌, List, [], ◌∷◌, Option, some, ◌≡◌, refl, sym, ap, ◌∙◌, map,
  ◌==◌, ==_refl, ==_iff, select, select_none, any, inl, inr, Bool-cases, nonempty, nonempty-select,
  if◌then◌else◌, arith,
}
use godown_rbac_system.Orm.{Objects, Got, found, missing, several, one}
use godown_rbac_system.Orm.Laws.{
  exists_lem, map_if_none, any-select, any-eq-false, select-update, select_congr, select-delete,
}
use godown_rbac_system.World.{Result, ok}
use godown_rbac_system.Common.Records.{
  Record, record_clash, or_else, is_row, set_marks, save_marks, as_deleted, as_restored, delete,
  hard_delete, restore,
}

-- What a record holds beside its deletion.
pub record Content : Type 0 where
  pub title : String
  pub created_at : ℕ
  pub updated_at : ℕ
  pub created_by : Option ℕ
  pub updated_by : Option ℕ

pub data Status : Type 0 where
  live : Content → Status
  trashed : Content → Option ℕ → Option ℕ → Status
  gone : Status

abbrev content : Record → Content
content r = record {
  title = r.title;
  created_at = r.created_at;
  updated_at = r.updated_at;
  created_by = r.created_by;
  updated_by = r.updated_by;
}

abbrev status_of : Got Record → Status
status_of (found r) =
    if r.is_deleted then trashed (content r) r.deleted_at r.deleted_by else live (content r)
status_of missing = gone
status_of several = gone

-- The abstract state: what is under a key.
abbrev pub view : List Record → ℕ → Status
view t k = status_of (one (select (λ r. r.id == k) t))

abbrev pub update : (ℕ → Status) → ℕ → (Status → Status) → ℕ → Status
update state k f j = if j == k then f (state j) else state j

abbrev pub to_trash : Option ℕ → Option ℕ → Status → Status
to_trash at by (live c) = trashed c at by
to_trash at by (trashed c old_at old_by) = trashed c at by
to_trash at by gone = gone

abbrev pub out_of_trash : Status → Status
out_of_trash (trashed c at by) = live c
out_of_trash other = other

abbrev pub removed : Status → Status
removed s = gone

module _ (r : Record) (t : List Record) (stored : select (λ s. s.id == r.id) t ≡ r ∷ []) where
  other_rows :
      (k : ℕ) (f : Record → Record)
      → (k == r.id) ≡ false
      → map (λ s. if s.id == r.id then f s else s) (select (λ s. s.id == k) t)
        ≡ select (λ s. s.id == k) t
  other_rows k f ne =
      map_if_none (λ s. s.id == r.id) f (select (λ s. s.id == k) t)
        (any-select (λ s. s.id == r.id) (λ s. s.id == k) t ∙ any-eq-false _ t (λ s. ground arith))

  view_row :
      (k : ℕ) (r' : Record)
      → view (map (λ s. if s.id == r.id then set_marks r' s else s) t) k
        ≡ (if k == r.id then status_of (found (set_marks r' r)) else view t k)
  view_row k r' =
      let moved = select-update (λ s. s.id == k) (λ s. s.id == r.id) (set_marks r') t (λ s. refl) in
      elim (Bool-cases (k == r.id)) [
        | inl same ↦
            let here = (==_iff k r.id).0 same in
            rw (moved, same) (rw (here, stored, ==_refl r.id) refl)
        | inr other ↦ rw (moved, other, other_rows k (set_marks r') other) refl
      ]

  none_both : (k : ℕ) → (k == r.id) ≡ true → any (λ s. s.id == k && not (s.id == r.id)) t ≡ false
  none_both k same = any-eq-false (λ s. s.id == k && not (s.id == r.id)) t (λ s. ground arith)

  kept_rows :
      (k : ℕ)
      → (k == r.id) ≡ false
      → select (λ s. s.id == k && not (s.id == r.id)) t ≡ select (λ s. s.id == k) t
  kept_rows k other =
      select_congr (λ s. s.id == k && not (s.id == r.id)) (λ s. s.id == k) t (λ s. ground arith)

  view_deleted :
      (k : ℕ) → view (select (λ s. not (s.id == r.id)) t) k ≡ (if k == r.id then gone else view t k)
  view_deleted k = elim (Bool-cases (k == r.id)) [
    | inl same ↦
        rw
          (
            same,
            select-delete (λ s. s.id == k) (λ s. s.id == r.id) t,
            select_none _ t (none_both k same),
          )
          refl
    | inr other ↦
        rw (other, select-delete (λ s. s.id == k) (λ s. s.id == r.id) t, kept_rows k other) refl
  ]

  module _ (all_objects : Objects record_clash) where
    pub saved :
        (r' : Record)
        → r'.id ≡ r.id
        → save_marks all_objects r' t
          ≡ ok (r', map (λ s. if s.id == r.id then set_marks r' s else s) t)
    saved r' own =
        let listed = sym (nonempty-select (is_row r) t) ∙ ap nonempty stored in
        rw
          (
            own,
            exists_lem all_objects (is_row r) t,
            listed,
            all_objects.update_lem (is_row r) (set_marks r') t,
          )
          refl

    here : view t r.id ≡ status_of (found r)
    here = ap (λ (rows : List Record). status_of (one rows)) stored

    deleted_status :
        (at by : Option ℕ) → trashed (content r) at by ≡ to_trash at by (status_of (found r))
    deleted_status at by = ground arith

    restored_status : live (content r) ≡ out_of_trash (status_of (found r))
    restored_status = ground arith

    changed :
        (r' : Record) (f : Status → Status)
        → status_of (found (set_marks r' r)) ≡ f (status_of (found r))
        → (k : ℕ)
        → view (map (λ s. if s.id == r.id then set_marks r' s else s) t) k
          ≡ update (view t) r.id f k
    changed r' f same k = elim (Bool-cases (k == r.id)) [
      | inl at_r ↦
          view_row k r'
          ∙ rw at_r (same ∙ ap f (sym here ∙ ap (view t) (sym ((==_iff k r.id).0 at_r))))
      | inr other ↦ view_row k r' ∙ rw other refl
    ]

    -- An operation on the instance succeeds, and changes the abstract state at its key by `f`.
    abbrev pub Refines : (Status → Status) → Result (Record × List Record) → Type 0
    Refines f out =
        (r' : Record) × (t' : List Record) × (out ≡ ok (r', t'))
        × (r'.id ≡ r.id)
        × ((k : ℕ) → view t' k ≡ update (view t) r.id f k)

    saved-Refines :
        (r' : Record) (f : Status → Status)
        → r'.id ≡ r.id
        → status_of (found (set_marks r' r)) ≡ f (status_of (found r))
        → Refines f (save_marks all_objects r' t)
    saved-Refines r' f own same = (
      r',
      map (λ s. if s.id == r.id then set_marks r' s else s) t,
      saved r' own,
      own,
      changed r' f same,
    )

    -- For an instance that is as its row, the one row with its key: delete moves this record to the
    -- trash, with the time and with who did it, restore takes it out of the trash, and hard_delete
    -- removes it; what is under all other keys stays.
    pub operations-Refines :
        ((deleted_by : Option ℕ) (now : ℕ)
          → Refines
              (to_trash (some now) (or_else deleted_by r.deleted_by))
              (delete all_objects r deleted_by now t))
        × Refines out_of_trash (restore all_objects r t)
        × ((k : ℕ) → view (hard_delete all_objects r t) k ≡ update (view t) r.id removed k)
    unfolding delete restore hard_delete
    operations-Refines = (
      (λ deleted_by now.
          saved-Refines (as_deleted deleted_by now r)
            (to_trash (some now) (or_else deleted_by r.deleted_by)) refl
            (deleted_status (some now) (or_else deleted_by r.deleted_by))),
      saved-Refines (as_restored r) out_of_trash refl restored_status,
      (λ k. rw (all_objects.delete_lem (is_row r) t) (view_deleted k)),
    )
