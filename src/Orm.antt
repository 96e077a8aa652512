-- ===== src/Orm.antt =====
-- Django's query API on the table of one model, as the services call it (`Role.objects.filter(…)`).
-- Django is not part of the repository: its operations are the fields of `Objects`, and the fields
-- that end in `_lem`, `_clash` and `_fresh` state what its documentation says of them.
-- A table is the list of its rows in the order in which the manager lists them, and a lookup is a
-- test on rows.
pub mod Laws
pub mod Distinct
pub mod Members
use godown_rbac_system.Prelude.{
  Bool, true, false, not, List, [], ◌∷◌, ◌++◌, Option, none, some, ◌≡◌, map, select, any,
  all_distinct, nonempty, head?, if◌then◌else◌,
}

-- The new row stands at some place among the old ones.
abbrev pub Inserts : {Row : Type 0} → Row → List Row → Option (List Row) → Type 0
Inserts {Row} r t after =
    (xs : List Row) × (ys : List Row) × (t ≡ xs ++ ys) × (after ≡ some (xs ++ r ∷ ys))

-- `clash r s`: the rows cannot both stand in the table, by a unique constraint of the model.
pub record Objects {Row : Type 0} (clash : Row → Row → Bool) : Type 0 where
  -- `.filter(…)`, in the model's ordering
  pub filter : (Row → Bool) → List Row → List Row
  pub filter_lem : (p : Row → Bool) (t : List Row) → filter p t ≡ select p t
  -- the INSERT of `.create(…)` and of `save()`; `none` is an IntegrityError
  pub create : Row → List Row → Option (List Row)
  pub create_clash : (r : Row) (t : List Row) → any (clash r) t ≡ true → create r t ≡ none
  pub create_fresh : (r : Row) (t : List Row) → any (clash r) t ≡ false → Inserts r t (create r t)
  -- the UPDATE of `save()` and of `.update(…)`, on columns that no ordering and no constraint names
  pub update : (Row → Bool) → (Row → Row) → List Row → List Row
  pub update_lem :
      (p : Row → Bool) (f : Row → Row) (t : List Row)
      → update p f t ≡ map (λ r. if p r then f r else r) t
  -- the same on columns of a unique constraint; `none` is an IntegrityError
  pub update_unique : (Row → Bool) → (Row → Row) → List Row → Option (List Row)
  pub update_unique_lem :
      (p : Row → Bool) (f : Row → Row) (t : List Row)
      → update_unique p f t ≡ (
          if all_distinct clash (map (λ r. if p r then f r else r) t)
          then some (map (λ r. if p r then f r else r) t)
          else none)
  -- the DELETE of `.delete()`
  pub delete : (Row → Bool) → List Row → List Row
  pub delete_lem : (p : Row → Bool) (t : List Row) → delete p t ≡ select (λ r. not (p r)) t

-- What `.get(…)` does: it returns the one row, or raises DoesNotExist or MultipleObjectsReturned.
pub data Got (Row : Type 0) : Type 0 where
  found : Row → Got Row
  missing : Got Row
  several : Got Row

abbrev pub one : {Row : Type 0} → List Row → Got Row
one [] = missing
one (r ∷ []) = found r
one (r ∷ s ∷ t) = several

module _ {Row : Type 0} {clash : Row → Row → Bool} (objects : Objects clash) where
  -- `.get(…)`, `.filter(…).exists()` and `.filter(…).first()`
  abbrev pub get : (Row → Bool) → List Row → Got Row
  get p t = one (objects.filter p t)

  abbrev pub exists : (Row → Bool) → List Row → Bool
  exists p t = nonempty (objects.filter p t)

  abbrev pub first : (Row → Bool) → List Row → Option Row
  first p t = head? (objects.filter p t)
