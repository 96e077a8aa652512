-- ===== src/Orm/Laws.antt =====
-- Queries after a write, from the laws of `Objects`.
use godown_rbac_system.Prelude.{
  Bool, true, false, not, ◌&&◌, ◌||◌, List, [], ◌∷◌, ◌++◌, some, ◌≡◌, refl, sym, ap, ◌∙◌, map,
  select, any, nonempty, if◌then◌else◌, arith, nonempty-select, select-append, any-append,
  select_none, Bool-cases, inl, inr,
}
use godown_rbac_system.Orm.{Objects, Inserts, missing, one, get, exists}

module _ {Row : Type 0} {clash : Row → Row → Bool} (o : Objects clash) where
  pub exists_lem : (p : Row → Bool) (t : List Row) → exists o p t ≡ any p t
  exists_lem p t = ap nonempty (o.filter_lem p t) ∙ nonempty-select p t

  pub get_lem : (p : Row → Bool) (t : List Row) → get o p t ≡ one (select p t)
  get_lem p t = ap one (o.filter_lem p t)

  pub get_missing : (p : Row → Bool) (t : List Row) → any p t ≡ false → get o p t ≡ missing
  get_missing p t h = get_lem p t ∙ ap one (select_none p t h)

module _ {Row : Type 0} (p : Row → Bool) where
  pub any-insert : (r : Row) (t t' : List Row) → Inserts r t (some t') → any p t' ≡ (p r || any p t)
  any-insert r t t' (xs, ys, before, after) =
      let e : t' ≡ xs ++ r ∷ ys = cc in
      rw (e, before, any-append p xs (r ∷ ys), any-append p xs ys) (ground arith)

  pub select-insert_other :
      (r : Row) (t t' : List Row) → Inserts r t (some t') → p r ≡ false → select p t' ≡ select p t
  select-insert_other r t t' (xs, ys, before, after) h =
      let e : t' ≡ xs ++ r ∷ ys = cc in
      rw (e, before, select-append p xs (r ∷ ys), select-append p xs ys, h) refl

  pub select-insert_new :
      (r : Row) (t t' : List Row)
      → Inserts r t (some t')
      → p r ≡ true
      → any p t ≡ false
      → select p t' ≡ r ∷ []
  select-insert_new r t t' (xs, ys, before, after) h k =
      let e : t' ≡ xs ++ r ∷ ys = cc in
      let absent : (any p xs || any p ys) ≡ false = sym (any-append p xs ys) ∙ (rw before at k) in
      let left : any p xs ≡ false = ground arith in
      let right : any p ys ≡ false = ground arith in
      rw (e, select-append p xs (r ∷ ys), h, select_none p xs left, select_none p ys right) refl

  -- Rows that the update leaves under the same test are found as before, and updated.
  pub select-update :
      (q : Row → Bool) (f : Row → Row) (t : List Row)
      → ((r : Row) → p (f r) ≡ p r)
      → select p (map (λ r. if q r then f r else r) t)
        ≡ map (λ r. if q r then f r else r) (select p t)
  select-update q f [] keep = refl
  select-update q f (r ∷ t) keep = ground (arith, select-update q f t keep, keep r)

  pub any-update :
      (q : Row → Bool) (f : Row → Row) (t : List Row)
      → ((r : Row) → p (f r) ≡ p r)
      → any p (map (λ r. if q r then f r else r) t) ≡ any p t
  any-update q f [] keep = refl
  any-update q f (r ∷ t) keep = ground (arith, any-update q f t keep, keep r)

  pub any-delete :
      (q : Row → Bool) (t : List Row)
      → any p (select (λ r. not (q r)) t) ≡ any (λ r. p r && not (q r)) t
  any-delete q [] = refl
  any-delete q (r ∷ t) = ground (arith, any-delete q t)

  pub select-delete :
      (q : Row → Bool) (t : List Row)
      → select p (select (λ r. not (q r)) t) ≡ select (λ r. p r && not (q r)) t
  select-delete q [] = refl
  select-delete q (r ∷ t) = ground (arith, select-delete q t)

  pub any_congr : (q : Row → Bool) (t : List Row) → ((r : Row) → p r ≡ q r) → any p t ≡ any q t
  any_congr q [] h = refl
  any_congr q (r ∷ t) h = ground (arith, any_congr q t h, h r)

  pub select_congr :
      (q : Row → Bool) (t : List Row) → ((r : Row) → p r ≡ q r) → select p t ≡ select q t
  select_congr q [] h = refl
  select_congr q (r ∷ t) h = ground (arith, select_congr q t h, h r)

  pub any-eq-false : (t : List Row) → ((r : Row) → p r ≡ false) → any p t ≡ false
  any-eq-false [] h = refl
  any-eq-false (r ∷ t) h = ground (arith, any-eq-false t h, h r)

  pub any-select : (q : Row → Bool) (t : List Row) → any p (select q t) ≡ any (λ r. q r && p r) t
  any-select q [] = refl
  any-select q (r ∷ t) = ground (arith, any-select q t)

  pub any-select-false :
      (q : Row → Bool) (t : List Row) → any p t ≡ false → any p (select q t) ≡ false
  any-select-false q [] h = refl
  any-select-false q (r ∷ t) h = ground (arith, any-select-false q t)

  pub select_hit : (t : List Row) (r : Row) (s : List Row) → select p t ≡ r ∷ s → p r ≡ true
  select_hit [] r s e = cc
  select_hit (x ∷ t) r s e = elim (Bool-cases (p x)) [
    | inl listed ↦
        let same : x ∷ select p t ≡ r ∷ s = rw (← e) (rw listed refl) in
        let head : x ≡ r = cc in rw (← head) listed
    | inr unlisted ↦ select_hit t r s (rw (← e) (rw unlisted refl))
  ]

  -- An update that meets no row.
  pub map_if_none :
      (f : Row → Row) (t : List Row) → any p t ≡ false → map (λ r. if p r then f r else r) t ≡ t
  map_if_none f [] h = refl
  map_if_none f (r ∷ t) h = ground (arith, map_if_none f t)

  pub any-and_comm :
      (q : Row → Bool) (t : List Row) → any (λ r. p r && q r) t ≡ any (λ r. q r && p r) t
  any-and_comm q [] = refl
  any-and_comm q (r ∷ t) = ground (arith, any-and_comm q t)

  pub any_of_select-nil : (t : List Row) → select p t ≡ [] → any p t ≡ false
  any_of_select-nil [] e = refl
  any_of_select-nil (r ∷ t) e = elim (Bool-cases (p r)) [
    | inl listed ↦ let same : r ∷ select p t ≡ [] = rw (← e) (rw listed refl) in cc
    | inr unlisted ↦ rw (unlisted, any_of_select-nil t (rw (← e) (rw unlisted refl))) refl
  ]

  pub any_or : (q : Row → Bool) (t : List Row) → any (λ r. p r || q r) t ≡ (any p t || any q t)
  any_or q [] = refl
  any_or q (r ∷ t) = ground (arith, any_or q t)

pub any_and :
    {A : Type 0} (b : Bool) (p : A → Bool) (xs : List A) → any (λ x. b && p x) xs ≡ (b && any p xs)
any_and b p [] = ground arith
any_and b p (x ∷ xs) = ground (arith, any_and b p xs)

pub any-map :
    {A B : Type 0} (p : B → Bool) (f : A → B) (xs : List A)
    → any p (map f xs) ≡ any (λ x. p (f x)) xs
any-map p f [] = refl
any-map p f (x ∷ xs) = ground (arith, any-map p f xs)

pub select_all :
    {A : Type 0} (p : A → Bool) (xs : List A) → any (λ x. not (p x)) xs ≡ false → select p xs ≡ xs
select_all p [] h = refl
select_all p (x ∷ xs) h = ground (arith, select_all p xs)

pub any_implied :
    {A : Type 0} (p q : A → Bool) (xs : List A)
    → ((x : A) → p x ≡ true → q x ≡ true)
    → any p xs ≡ true
    → any q xs ≡ true
any_implied p q [] h k = cc
any_implied p q (x ∷ xs) h k = elim (Bool-cases (p x)) [
  | inl met ↦ rw (h x met) refl
  | inr missed ↦ let later = any_implied p q xs h (ground arith) in ground arith
]

pub select-select :
    {A : Type 0} (p q : A → Bool) (xs : List A)
    → select p (select q xs) ≡ select (λ x. q x && p x) xs
select-select p q [] = refl
select-select p q (x ∷ xs) = ground (arith, select-select p q xs)
