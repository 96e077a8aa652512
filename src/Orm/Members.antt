-- ===== src/Orm/Members.antt =====
-- What holds of all rows, after a write; and what a lookup says of the rows of a table.
use godown_rbac_system.Prelude.{
  Bool, true, List, [], ◌∷◌, ◌++◌, some, ◌≡◌, refl, inl, inr, map, select, any, All, if◌then◌else◌,
  arith, Bool-cases,
}
use godown_rbac_system.Orm.{Inserts}

module _ {Row : Type 0} where
  pub any_hit :
      (p q : Row → Bool) (t : List Row) (r : Row) (s : List Row)
      → select p t ≡ r ∷ s
      → q r ≡ true
      → any q t ≡ true
  any_hit p q [] r s e h = cc
  any_hit p q (x ∷ t) r s e h = elim (Bool-cases (p x)) [
    | inl listed ↦
        let same : x ∷ select p t ≡ r ∷ s = rw (← e) (rw listed refl) in
        let head : x ≡ r = cc in rw (head, h) refl
    | inr unlisted ↦ let later = any_hit p q t r s (rw (← e) (rw unlisted refl)) h in ground arith
  ]

  unlisted-All :
      (p : Row → Bool) (t : List Row) (r : Row) → select p t ≡ [] → All (λ x. p x ≡ true → x ≡ r) t
  unlisted-All p [] r e = tt
  unlisted-All p (x ∷ t) r e = elim (Bool-cases (p x)) [
    | inl listed ↦ let same : x ∷ select p t ≡ [] = rw (← e) (rw listed refl) in cc
    | inr unlisted ↦ ((λ h. cc), unlisted-All p t r (rw (← e) (rw unlisted refl)))
  ]

  -- All rows that pass the test are the one row of the lookup.
  pub one-All :
      (p : Row → Bool) (t : List Row) (r : Row)
      → select p t ≡ r ∷ []
      → All (λ x. p x ≡ true → x ≡ r) t
  one-All p [] r e = tt
  one-All p (x ∷ t) r e = elim (Bool-cases (p x)) [
    | inl listed ↦
        let same : x ∷ select p t ≡ r ∷ [] = rw (← e) (rw listed refl) in
        ((λ h. cc), unlisted-All p t r (cc))
    | inr unlisted ↦ ((λ h. cc), one-All p t r (rw (← e) (rw unlisted refl)))
  ]

  module _ (P : Row → Type 0) where
    All-insert_at : (xs ys : List Row) (r : Row) → All P (xs ++ ys) → P r → All P (xs ++ r ∷ ys)
    All-insert_at [] ys r h p = (p, h)
    All-insert_at (x ∷ xs) ys r h p = (h.0, All-insert_at xs ys r h.1 p)

    pub All-insert : (r : Row) (t t' : List Row) → Inserts r t (some t') → All P t → P r → All P t'
    All-insert r t t' (xs, ys, before, after) h p =
        let e : t' ≡ xs ++ r ∷ ys = cc in rw e (All-insert_at xs ys r (rw before at h) p)

    pub All-select : (p : Row → Bool) (t : List Row) → All P t → All P (select p t)
    All-select p [] h = tt
    All-select p (r ∷ t) h = elim (Bool-cases (p r)) [
      | inl kept ↦ rw kept (h.0, All-select p t h.1)
      | inr dropped ↦ rw dropped (All-select p t h.1)
    ]

    pub All-update :
        (q : Row → Bool) (f : Row → Row) (Q : Row → Type 0) (t : List Row)
        → All P t
        → All Q t
        → ((r : Row) → P r → Q r → q r ≡ true → P (f r))
        → All P (map (λ r. if q r then f r else r) t)
    All-update q f Q [] h k step = tt
    All-update q f Q (r ∷ t) h k step =
        let later = All-update q f Q t h.1 k.1 step in
        elim (Bool-cases (q r)) [
          | inl met ↦ rw met (step r h.0 k.0 met, later)
          | inr missed ↦ rw missed (h.0, later)
        ]

    pub All-map : (Q : Row → Type 0) (t : List Row) → ((r : Row) → P r → Q r) → All P t → All Q t
    All-map Q [] f h = tt
    All-map Q (r ∷ t) f h = (f r h.0, All-map Q t f h.1)
