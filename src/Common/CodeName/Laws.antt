-- ===== src/Common/CodeName/Laws.antt =====
-- What `_camel_to_snake` does to a name.
use godown_rbac_system.Prelude.{
  ℕ, false, not, List, [], ◌∷◌, ◌≡◌, refl, ap, ◌∙◌, map, ◌==◌, select, All, arith, inl, inr,
  Bool-cases,
}
use godown_rbac_system.Common.CodeName.{
  is_upper, to_lower, Place, outside, capital, letters, place_after, emit, split_words,
  split_capitals, camel_to_snake,
}

abbrev pub letters_of : List ℕ → List ℕ
letters_of = select (λ c. not (c == b'_'))

letters-emit :
    (place : Place) (c : ℕ) (rest : List ℕ) → letters_of (emit place c rest) ≡ letters_of (c ∷ rest)
letters-emit outside c rest = refl
letters-emit capital c rest = ground arith
letters-emit letters c rest = refl

letters-cons :
    (c : ℕ) (xs ys : List ℕ)
    → letters_of xs ≡ letters_of ys
    → letters_of (c ∷ xs) ≡ letters_of (c ∷ ys)
letters-cons c xs ys h = ground arith

letters-split_words :
    (place : Place) (cs : List ℕ) → letters_of (split_words place cs) ≡ letters_of cs
unfolding split_words
letters-split_words place [] = refl
letters-split_words place (c ∷ cs) =
    let after = place_after place c cs in
    letters-emit after c (split_words after cs)
    ∙ letters-cons c (split_words after cs) cs (letters-split_words after cs)

letters-split_capitals : (cs : List ℕ) → letters_of (split_capitals cs) ≡ letters_of cs
unfolding split_capitals
letters-split_capitals [] = refl
letters-split_capitals (c ∷ cs) = ground (arith, letters-split_capitals cs)

letters-map : (cs : List ℕ) → letters_of (map to_lower cs) ≡ map to_lower (letters_of cs)
letters-map [] = refl
letters-map (c ∷ cs) = ground (arith, letters-map cs)

abbrev pub NoCapital : List ℕ → Type 0
NoCapital = All (λ c. is_upper c ≡ false)

NoCapital-map : (cs : List ℕ) → NoCapital (map to_lower cs)
NoCapital-map [] = tt
NoCapital-map (c ∷ cs) = (ground arith, NoCapital-map cs)

stays_at_end : (c : ℕ) → place_after outside c [] ≡ outside
stays_at_end c = ground arith

stays_outside :
    (c d : ℕ) (cs : List ℕ) → is_upper d ≡ false → place_after outside c (d ∷ cs) ≡ outside
stays_outside c d cs h = elim (Bool-cases (c == 10)) [
  | inl newline ↦ rw newline refl
  | inr other ↦ rw (other, h) refl
]

same_words : (cs : List ℕ) → NoCapital cs → split_words outside cs ≡ cs
unfolding split_words
same_words [] h = refl
same_words (c ∷ []) h = ap (λ (p : Place). emit p c (split_words p [])) (stays_at_end c)
same_words (c ∷ d ∷ cs) h =
    ap (λ (p : Place). emit p c (split_words p (d ∷ cs))) (stays_outside c d cs h.1.0)
    ∙ ap (λ (rest : List ℕ). c ∷ rest) (same_words (d ∷ cs) h.1)

same_capitals : (cs : List ℕ) → NoCapital cs → split_capitals cs ≡ cs
unfolding split_capitals
same_capitals [] h = refl
same_capitals (c ∷ []) h = ground arith
same_capitals (c ∷ d ∷ cs) h = ground (arith, same_capitals (d ∷ cs) h.1)

same_letters : (cs : List ℕ) → NoCapital cs → map to_lower cs ≡ cs
same_letters [] h = refl
same_letters (c ∷ cs) h = ground (arith, same_letters cs h.1)

unchanged : (cs : List ℕ) → NoCapital cs → camel_to_snake cs ≡ cs
unfolding camel_to_snake
unchanged cs h = rw (same_words cs h, same_capitals cs h) (same_letters cs h)

small : (name : List ℕ) → NoCapital (camel_to_snake name)
unfolding camel_to_snake
small name = NoCapital-map (split_capitals (split_words outside name))

same_text : (name : List ℕ) → letters_of (camel_to_snake name) ≡ map to_lower (letters_of name)
unfolding camel_to_snake
same_text name =
    letters-map (split_capitals (split_words outside name))
    ∙ ap (map to_lower)
        (letters-split_capitals (split_words outside name) ∙ letters-split_words outside name)

-- The code of a class's name has no capital, is the name in small letters but for underscores that
-- are put in, and is its own code.
pub camel_to_snake_lem :
    (name : List ℕ)
    → NoCapital (camel_to_snake name)
      × (letters_of (camel_to_snake name) ≡ map to_lower (letters_of name))
      × (camel_to_snake (camel_to_snake name) ≡ camel_to_snake name)
camel_to_snake_lem name = (small name, same_text name, unchanged (camel_to_snake name) (small name))
