-- ===== src/Orm/Distinct.antt =====
-- Tables in which no two rows clash: what unique constraints keep, and what they give `.get(…)`.
use godown_rbac_system.Prelude.{
  Bool, true, false, List, [], ◌∷◌, ◌++◌, some, ◌≡◌, refl, ap, ◌∙◌, ◌⊎◌, inl, inr, map, select, any,
  if◌then◌else◌, arith, any-append, select_none, Bool-cases,
}
use godown_rbac_system.Orm.{Inserts}
use godown_rbac_system.Orm.Laws.{any_congr, any-update, any-select-false}

module _ {Row : Type 0} (clash : Row → Row → Bool) where
  abbrev pub Distinct : List Row → Type 0
  Distinct [] = Unit
  Distinct (r ∷ t) = (any (clash r) t ≡ false) × Distinct t

  -- Rows that a lookup cannot tell apart clash.
  abbrev pub IsKey : (Row → Bool) → Type 0
  IsKey p = (r s : Row) → p r ≡ true → p s ≡ true → clash r s ≡ true

  any-false_of_key :
      (p : Row → Bool)
      → IsKey p
      → (r : Row) (t : List Row) → p r ≡ true
      → any (clash r) t ≡ false
      → any p t ≡ false
  any-false_of_key p key r [] h k = refl
  any-false_of_key p key r (s ∷ t) h k = ground (arith, key r s h, any-false_of_key p key r t h)

  -- A lookup by a key finds one row or none.
  pub select_key :
      (p : Row → Bool) (t : List Row)
      → IsKey p
      → Distinct t
      → (select p t ≡ []) ⊎ ((r : Row) × (select p t ≡ r ∷ []))
  select_key p [] key d = inl refl
  select_key p (r ∷ t) key d = elim (Bool-cases (p r)) [
    | inl listed ↦
        inr (r, rw (listed, select_none p t (any-false_of_key p key r t listed d.0)) refl)
    | inr unlisted ↦ rw unlisted (select_key p t key d.1)
  ]

  module _ (symmetric : (r s : Row) → clash r s ≡ clash s r) where
    Distinct-insert_at :
        (xs ys : List Row) (r : Row)
        → Distinct (xs ++ ys)
        → any (clash r) (xs ++ ys) ≡ false
        → Distinct (xs ++ r ∷ ys)
    Distinct-insert_at [] ys r d h = (h, d)
    Distinct-insert_at (x ∷ xs) ys r d h = (
      (any-append (clash x) xs (r ∷ ys)
          ∙ ground (arith, symmetric x r, any-append (clash x) xs ys)),
      Distinct-insert_at xs ys r d.1 (ground arith),
    )

    pub Distinct-insert :
        (r : Row) (t t' : List Row)
        → Inserts r t (some t')
        → any (clash r) t ≡ false
        → Distinct t
        → Distinct t'
    Distinct-insert r t t' (xs, ys, before, after) h d =
        let e : t' ≡ xs ++ r ∷ ys = cc in
        rw e (Distinct-insert_at xs ys r (rw before at d) (rw before at h))

  pub Distinct-select : (p : Row → Bool) (t : List Row) → Distinct t → Distinct (select p t)
  Distinct-select p [] d = tt
  Distinct-select p (r ∷ t) d = elim (Bool-cases (p r)) [
    | inl kept ↦ rw kept (any-select-false (clash r) p t d.0, Distinct-select p t d.1)
    | inr dropped ↦ rw dropped (Distinct-select p t d.1)
  ]

  pub Distinct-update :
      (q : Row → Bool) (f : Row → Row) (t : List Row)
      → ((r s : Row) → clash (f r) s ≡ clash r s)
      → ((r s : Row) → clash s (f r) ≡ clash s r)
      → Distinct t
      → Distinct (map (λ r. if q r then f r else r) t)
  Distinct-update q f [] left right d = tt
  Distinct-update q f (r ∷ t) left right d =
      let later = Distinct-update q f t left right d.1 in
      elim (Bool-cases (q r)) [
        | inl changed ↦ rw changed (
          (any-update (clash (f r)) q f t (λ s. right s (f r))
              ∙ any_congr (clash (f r)) (clash r) t (left r)
              ∙ d.0),
          later,
        )
        | inr same ↦ rw same ((any-update (clash r) q f t (λ s. right s r) ∙ d.0), later)
      ]

  any-false_at :
      (p c : Row → Bool) (t : List Row) (m : Row)
      → select p t ≡ m ∷ []
      → any c t ≡ false
      → (p m ≡ true) × (c m ≡ false)
  any-false_at p c [] m e h = cc
  any-false_at p c (r ∷ t) m e h = elim (Bool-cases (p r)) [
    | inl listed ↦
        let same : r ∷ select p t ≡ m ∷ [] = rw (← e) (rw listed refl) in
        let head : r ≡ m = cc in rw (← head) (listed, ground arith)
    | inr unlisted ↦ any-false_at p c t m (rw (← e) (rw unlisted refl)) (ground arith)
  ]

  -- The one row of a lookup is also the one row of every lookup by a key that it meets.
  pub select_self :
      (p k : Row → Bool) (t : List Row) (m : Row)
      → IsKey k
      → k m ≡ true
      → Distinct t
      → select p t ≡ m ∷ []
      → select k t ≡ m ∷ []
  select_self p k [] m key hit d e = cc
  select_self p k (r ∷ t) m key hit d e = elim (Bool-cases (p r)) [
    | inl listed ↦
        let same : r ∷ select p t ≡ m ∷ [] = rw (← e) (rw listed refl) in
        let head : r ≡ m = cc in
        let met : k r ≡ true = rw head hit in
        rw (met, select_none k t (any-false_of_key k key r t met d.0)) (ap (λ x. x ∷ []) head)
    | inr unlisted ↦
        let later : select p t ≡ m ∷ [] = rw (← e) (rw unlisted refl) in
        let apart = any-false_at p (clash r) t m later d.0 in
        let missed : k r ≡ false = ground (arith, key r m, apart.1) in
        rw missed (select_self p k t m key hit d.1 later)
  ]
