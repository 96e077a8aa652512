-- ===== src/Audit/Signals/Diff.antt =====
-- What the audit log says of a change: exactly the fields that differ, and never the password.
use godown_rbac_system.Prelude.{
  String, Bool, true, not, ◌&&◌, [], ◌∷◌, Option, none, some, ◌≡◌, refl, inl, inr, str_eq, eq_iff,
  eq_refl, if◌then◌else◌, arith, Bool-cases,
}
use godown_rbac_system.Models.{Values}
use godown_rbac_system.Audit.Signals.{Fields, value_of, is_value, visible, diff}

-- The JSON's value under a name.
abbrev pub value_in : String → Values → Option (Option String)
value_in name [] = none
value_in name ((n, v) ∷ vs) = if str_eq n name then some v else value_in name vs

-- No field stands twice.
abbrev pub HasNames : Fields → Type 0
HasNames [] = Unit
HasNames ((n, v) ∷ fs) = (value_of n fs ≡ none) × HasNames fs

-- Is the field one that an update records?
abbrev pub is_recorded : Fields → String → String → Bool
is_recorded old name v = not (str_eq name "password") && not (is_value (value_of name old) v)

abbrev pub old_entry : Fields → String → Option String → Option (Option String)
old_entry old name none = none
old_entry old name (some v) = if is_recorded old name v then some (value_of name old) else none

abbrev pub new_entry : Fields → String → Option String → Option (Option String)
new_entry old name none = none
new_entry old name (some v) = if is_recorded old name v then some (some v) else none

abbrev pub shown : Option String → Option (Option String)
shown none = none
shown (some v) = some (some v)

absent_under :
    (n name : String) (fs : Fields)
    → str_eq n name ≡ true
    → value_of n fs ≡ none
    → value_of name fs ≡ none
absent_under n name fs same absent = rw (← (eq_iff n name).0 same) absent

-- In a row whose fields have different names, an update records a field under `before` and `after`
-- exactly if it is not the password and its value is not the stored one, with the stored value
-- before and the new value after.
pub diff_lem :
    (old new : Fields) (name : String)
    → HasNames new
    → (value_in name (diff old new).0 ≡ old_entry old name (value_of name new))
      × (value_in name (diff old new).1 ≡ new_entry old name (value_of name new))
unfolding diff
diff_lem old [] name d = (refl, refl)
diff_lem old ((n, v) ∷ fs) name d =
    let (before, after) = diff_lem old fs name d.1 in
    elim (Bool-cases (str_eq n name)) [
      | inl same ↦
          let gone = absent_under n name fs same d.0 in
          let e : n ≡ name = (eq_iff n name).0 same in
          let b : value_in name (diff old fs).0 ≡ none = rw gone at before in
          let a : value_in name (diff old fs).1 ≡ none = rw gone at after in
          rw e (elim (Bool-cases (str_eq name "password")) [
            | inl secret ↦ rw (eq_refl name, secret) (b, a)
            | inr plain ↦ elim (Bool-cases (is_value (value_of name old) v)) [
              | inl kept ↦ rw (eq_refl name, plain, kept) (b, a)
              | inr changed ↦ rw (eq_refl name, plain, changed) (rw (eq_refl name) (refl, refl))
            ]
          ])
      | inr other ↦ elim (Bool-cases (str_eq n "password")) [
        | inl secret ↦ rw (other, secret) (before, after)
        | inr plain ↦ elim (Bool-cases (is_value (value_of n old) v)) [
          | inl kept ↦ rw (other, plain, kept) (before, after)
          | inr changed ↦ rw (other, plain, changed) (rw other (before, after))
        ]
      ]
    ]

-- A creation and a deletion record, under a name, the value of the row's field, except that the
-- password is left out.
pub visible_lem :
    (fs : Fields) (name : String)
    → value_in name (visible fs)
      ≡ (if str_eq name "password" then none else shown (value_of name fs))
unfolding visible
visible_lem [] name = ground arith
visible_lem ((n, v) ∷ fs) name =
    let later = visible_lem fs name in
    elim (Bool-cases (str_eq n name)) [
      | inl same ↦
          let e : n ≡ name = (eq_iff n name).0 same in
          rw e (elim (Bool-cases (str_eq name "password")) [
            | inl secret ↦ rw (eq_refl name, secret) (rw secret at later)
            | inr plain ↦ rw (eq_refl name, plain) (rw (eq_refl name) refl)
          ])
      | inr other ↦ elim (Bool-cases (str_eq n "password")) [
        | inl secret ↦ rw (other, secret) later
        | inr plain ↦ rw (other, plain) (rw other later)
      ]
    ]
