-- ===== src/Common/Records/Restore.antt =====
-- The way back out of the trash, and what `objects` lists.
use godown_rbac_system.Prelude.{
  ℕ, Bool, true, false, not, ◌&&◌, List, [], ◌∷◌, Option, none, ◌≡◌, refl, sym, ap, ◌∙◌, map, ◌==◌,
  ==_refl, select, inl, inr, Bool-cases, All, length, if◌then◌else◌, arith,
}
use godown_rbac_system.Orm.{Objects}
use godown_rbac_system.Orm.Laws.{select-update}
use godown_rbac_system.World.{ok}
use godown_rbac_system.Common.Records.Trash.{saved}
use godown_rbac_system.Common.Records.{
  Record, record_clash, set_marks, trashed_now, as_deleted, as_restored, delete, restore, active,
  delete_rows,
}

-- What the columns of the deletion hold of a record that is not deleted.
abbrev pub IsClean : Record → Type 0
IsClean r = (r.is_deleted ≡ false) × (r.deleted_at ≡ none) × (r.deleted_by ≡ none)

module _ (r : Record) where
  none_same :
      (t : List Record)
      → select (λ s. s.id == r.id) t ≡ []
      → All (λ s. (s.id == r.id) ≡ true → s ≡ r) t
  none_same [] h = tt
  none_same (s ∷ t) h = elim (Bool-cases (s.id == r.id)) [
    | inl own ↦ let rows : s ∷ select (λ x. x.id == r.id) t ≡ [] = rw own at h in cc
    | inr other ↦ ((λ (own : (s.id == r.id) ≡ true). cc), none_same t (rw other at h))
  ]

  same_as :
      (t : List Record)
      → select (λ s. s.id == r.id) t ≡ r ∷ []
      → All (λ s. (s.id == r.id) ≡ true → s ≡ r) t
  same_as [] h = tt
  same_as (s ∷ t) h = elim (Bool-cases (s.id == r.id)) [
    | inl own ↦
        let rows : s ∷ select (λ x. x.id == r.id) t ≡ r ∷ [] = rw own at h in
        let rest : select (λ x. x.id == r.id) t ≡ [] = cc in ((λ _. cc), none_same t rest)
    | inr other ↦ ((λ (own : (s.id == r.id) ≡ true). cc), same_as t (rw other at h))
  ]

  back :
      (r' : Record) (t : List Record)
      → All (λ s. (s.id == r.id) ≡ true → s ≡ r) t
      → map
          (λ s. if s.id == r.id then set_marks r s else s)
          (map (λ s. if s.id == r.id then set_marks r' s else s) t)
        ≡ t
  back r' [] h = refl
  back r' (s ∷ t) h = elim (Bool-cases (s.id == r.id)) [
    | inl own ↦ rw (own, own, back r' t h.1, h.0 own) refl
    | inr other ↦ rw (other, other, back r' t h.1) refl
  ]

  restored_same : IsClean r → as_restored r ≡ r
  restored_same h = ground (arith, h.0, h.1, h.2)

module _ (all_objects : Objects record_clash) (r : Record) (t : List Record)
    (stored : select (λ s. s.id == r.id) t ≡ r ∷ []) (clean : IsClean r) where
  -- If an instance is as its row, the one row with its key, and is not deleted, then to delete it and
  -- to restore the instance that this leaves succeed, and bring back both the instance and the
  -- table.
  pub restore-delete :
      (deleted_by : Option ℕ) (now : ℕ)
      → (r' : Record) × (t' : List Record) × (delete all_objects r deleted_by now t ≡ ok (r', t'))
        × (restore all_objects r' t' ≡ ok (r, t))
  unfolding delete restore
  restore-delete deleted_by now =
      let r' = as_deleted deleted_by now r in
      let t' = map (λ s. if s.id == r.id then set_marks r' s else s) t in
      let stored' : select (λ s. s.id == r.id) t' ≡ set_marks r' r ∷ [] =
        select-update (λ s. s.id == r.id) (λ s. s.id == r.id) (set_marks r') t (λ s. refl)
        ∙ ap (map (λ s. if s.id == r.id then set_marks r' s else s)) stored
        ∙ rw (==_refl r.id) refl in
      (
        r',
        t',
        saved r t stored all_objects (as_deleted deleted_by now r) refl,
        saved (set_marks r' r) t' stored' all_objects (as_restored r') refl
            ∙ ap (λ (x : Record). ok (x, map (λ s. if s.id == r.id then set_marks x s else s) t'))
                (restored_same r clean)
            ∙ ap (λ (u : List Record). ok (r, u)) (back r r' t (same_as r t stored)),
      )

module _ (all_objects : Objects record_clash) (p : Record → Bool) (now : ℕ) where
  abbrev marked : Record → Record
  marked r = if not r.is_deleted && p r then trashed_now now r else r

  active_marked :
      (q : Record → Bool) (t : List Record)
      → select (λ r. not r.is_deleted && q r) (map marked t)
        ≡ select (λ r. not r.is_deleted && (q r && not (p r))) t
  active_marked q [] = refl
  active_marked q (r ∷ t) = ground (arith, active_marked q t)

  marked_ids : (t : List Record) → map (λ r. r.id) (map marked t) ≡ map (λ r. r.id) t
  marked_ids [] = refl
  marked_ids (r ∷ t) = elim (Bool-cases (not r.is_deleted && p r)) [
    | inl hit ↦ rw (hit, marked_ids t) refl
    | inr missed ↦ rw (missed, marked_ids t) refl
  ]

  -- Deleting the records that a filter of `objects` finds returns how many those are, takes exactly
  -- those out of what any filter of `objects` finds, and keeps all rows in the table.
  pub delete_rows-active :
      (t : List Record)
      → let (count, after) = delete_rows all_objects p now t in
        (count ≡ length (active all_objects p t))
        × ((q : Record → Bool)
            → active all_objects q after ≡ active all_objects (λ r. q r && not (p r)) t)
        × (map (λ r. r.id) after ≡ map (λ r. r.id) t)
  unfolding delete_rows active
  delete_rows-active t =
      rw (all_objects.update_lem (λ r. not r.is_deleted && p r) (trashed_now now) t) (
        refl,
        (λ q.
            all_objects.filter_lem (λ r. not r.is_deleted && q r) (map marked t)
            ∙ active_marked q t
            ∙ sym (all_objects.filter_lem (λ r. not r.is_deleted && (q r && not (p r))) t)),
        marked_ids t,
      )
