-- ===== src/Features/Toggles.antt =====
-- The dictionaries of `get_active_features`, read back by `lookup`: what an assignment, a
-- comprehension over flags and a merge leave under a name.
use godown_rbac_system.Prelude.{
  ◌≤◌, String, Bool, true, false, List, [], ◌∷◌, Option, none, some, ◌≡◌, refl, ◌∙◌, inl, inr,
  str_eq, length, select, contains, arith, eq_iff, Bool-cases, if◌then◌else◌,
}
use godown_rbac_system.Models.{FeatureFlag}
use godown_rbac_system.Features.{Toggles, assign, assign_all, merge, active_names}

-- `d.get(name)`
abbrev pub lookup : String → Toggles → Option Bool
lookup name [] = none
lookup name ((n, active) ∷ d) = if str_eq n name then some active else lookup name d

abbrev pub or_else : Option Bool → Option Bool → Option Bool
or_else none b = b
or_else (some a) b = some a

abbrev pub is_on : Option Bool → Bool
is_on none = false
is_on (some b) = b

abbrev pub active_of : List FeatureFlag → Option Bool
active_of [] = none
active_of (f ∷ fs) = some f.is_active

abbrev pub named : String → FeatureFlag → Bool
named name f = str_eq f.name name

-- No key stands twice.
abbrev pub Keyed : Toggles → Type 0
Keyed [] = Unit
Keyed ((n, active) ∷ d) = (lookup n d ≡ none) × Keyed d

pub lookup-assign :
    (name n : String) (active : Bool) (d : Toggles)
    → lookup name (assign n active d) ≡ (if str_eq n name then some active else lookup name d)
unfolding assign
lookup-assign name n active [] = refl
lookup-assign name n active ((m, b) ∷ d) =
    ground (arith, lookup-assign name n active d, eq_iff m n, eq_iff m name, eq_iff n name)

pub assign-Keyed : (n : String) (active : Bool) (d : Toggles) → Keyed d → Keyed (assign n active d)
unfolding assign
assign-Keyed n active [] k = (refl, tt)
assign-Keyed n active ((m, b) ∷ d) k = elim (Bool-cases (str_eq m n)) [
  | inl same ↦ rw same (k.0, k.1)
  | inr other ↦
      let apart : str_eq n m ≡ false = ground (arith, eq_iff m n, eq_iff n m) in
      rw other ((lookup-assign m n active d ∙ rw apart k.0), assign-Keyed n active d k.1)
]

nil_of : (f : FeatureFlag) (fs : List FeatureFlag) → length (f ∷ fs) ≤ 1 → fs ≡ []
nil_of f [] h = refl
nil_of f (g ∷ fs) h = ground arith

pub lookup-assign_all :
    (name : String) (d : Toggles) (fs : List FeatureFlag)
    → length (select (named name) fs) ≤ 1
    → lookup name (assign_all d fs) ≡ or_else (active_of (select (named name) fs)) (lookup name d)
unfolding assign_all
lookup-assign_all name d [] h = refl
lookup-assign_all name d (f ∷ fs) h = elim (Bool-cases (named name f)) [
  | inl met ↦
      let rest : select (named name) fs ≡ [] = nil_of f (select (named name) fs) (rw met at h) in
      rw (met) (
        lookup-assign_all name (assign f.name f.is_active d) fs (rw rest (ground arith))
        ∙ rw (rest, lookup-assign name f.name f.is_active d, met) refl)
  | inr missed ↦ rw (missed) (
      lookup-assign_all name (assign f.name f.is_active d) fs (rw missed at h)
      ∙ rw (lookup-assign name f.name f.is_active d, missed) refl)
]

pub assign_all-Keyed : (d : Toggles) (fs : List FeatureFlag) → Keyed d → Keyed (assign_all d fs)
unfolding assign_all
assign_all-Keyed d [] k = k
assign_all-Keyed d (f ∷ fs) k =
    assign_all-Keyed (assign f.name f.is_active d) fs (assign-Keyed f.name f.is_active d k)

missing_of_same :
    (n name : String) (d : Toggles)
    → lookup n d ≡ none
    → str_eq n name ≡ true
    → lookup name d ≡ none
missing_of_same n name d absent same = let e : n ≡ name = (eq_iff n name).0 same in rw (← e) absent

pub lookup-merge :
    (name : String) (d e : Toggles)
    → Keyed e
    → lookup name (merge d e) ≡ or_else (lookup name e) (lookup name d)
unfolding merge
lookup-merge name d [] k = refl
lookup-merge name d ((n, a) ∷ e) k =
    lookup-merge name (assign n a d) e k.1 ∙ elim (Bool-cases (str_eq n name)) [
      | inl same ↦
          let absent = missing_of_same n name e k.0 same in
          rw (absent, lookup-assign name n a d, same) refl
      | inr other ↦ rw (lookup-assign name n a d, other) refl
    ]

pub merge-Keyed : (d e : Toggles) → Keyed d → Keyed (merge d e)
unfolding merge
merge-Keyed d [] k = k
merge-Keyed d ((n, a) ∷ e) k = merge-Keyed (assign n a d) e (assign-Keyed n a d k)

pub contains-active_names :
    (name : String) (d : Toggles) → Keyed d → contains name (active_names d) ≡ is_on (lookup name d)
unfolding active_names
contains-active_names name [] k = refl
contains-active_names name ((n, a) ∷ d) k = elim (Bool-cases (str_eq n name)) [
  | inl same ↦
      let absent = missing_of_same n name d k.0 same in
      let rest = contains-active_names name d k.1 in rw same (ground (arith))
  | inr other ↦ let rest = contains-active_names name d k.1 in rw other (ground (arith))
]
