-- ===== src/Common/CodeName.antt =====
-- apps/common/exceptions.py: `_camel_to_snake`, on the code points of a class's name; `lower` is
-- that of ASCII, in which the names of exceptions are written.
pub mod Laws
use godown_rbac_system.Prelude.{
  ℕ, ◌+◌, Bool, true, false, not, ◌&&◌, ◌||◌, List, [], ◌∷◌, map, leb, ◌==◌, if◌then◌else◌,
}

abbrev pub is_upper : ℕ → Bool
is_upper c = leb b'A' c && leb c b'Z'

abbrev pub is_lower : ℕ → Bool
is_lower c = leb b'a' c && leb c b'z'

abbrev pub is_digit : ℕ → Bool
is_digit c = leb b'0' c && leb c b'9'

abbrev pub to_lower : ℕ → ℕ
to_lower c = if is_upper c then c + 32 else c

-- Where the first pattern, `(.)([A-Z][a-z]+)`, stands: before a match, at the capital of one, or
-- in the small letters after it.
pub data Place : Type 0 where
  outside capital letters : Place

abbrev starts_lower : List ℕ → Bool
starts_lower [] = false
starts_lower (c ∷ cs) = is_lower c

abbrev starts_upper : List ℕ → Bool
starts_upper [] = false
starts_upper (c ∷ cs) = is_upper c

-- `[A-Z][a-z]+` stands here.
abbrev starts_word : List ℕ → Bool
starts_word [] = false
starts_word (c ∷ cs) = is_upper c && starts_lower cs

abbrev matched : Bool → Place
matched true = capital
matched false = outside

-- The place after a character; `.` is no newline.
abbrev pub place_after : Place → ℕ → List ℕ → Place
place_after outside c cs = matched (not (c == 10) && starts_word cs)
place_after capital c cs = letters
place_after letters c cs = if is_lower c then letters else matched (not (c == 10) && starts_word cs)

abbrev pub emit : Place → ℕ → List ℕ → List ℕ
emit capital c rest = c ∷ b'_' ∷ rest
emit place c rest = c ∷ rest

-- `re.sub(r"(.)([A-Z][a-z]+)", r"\1_\2", name)`
unfoldable pub split_words : Place → List ℕ → List ℕ
split_words place [] = []
split_words place (c ∷ cs) =
    let after = place_after place c cs in emit after c (split_words after cs)

-- `re.sub(r"([a-z0-9])([A-Z])", r"\1_\2", s1)`: a capital that a match takes can begin no other.
unfoldable pub split_capitals : List ℕ → List ℕ
split_capitals [] = []
split_capitals (c ∷ cs) =
    let rest = split_capitals cs in
    if (is_lower c || is_digit c) && starts_upper cs then c ∷ b'_' ∷ rest else c ∷ rest

unfoldable pub camel_to_snake : List ℕ → List ℕ
unfolding split_words split_capitals
camel_to_snake name = map to_lower (split_capitals (split_words outside name))
