-- ===== src/Dict.antt =====
-- Python's dictionaries with texts as keys, in the order of insertion.
use godown_rbac_system.Prelude.{
  String, Bool, List, [], ◌∷◌, Option, none, some, ◌≡◌, refl, map, str_eq, eq_iff, eq_refl, any,
  arith, if◌then◌else◌,
}

module _ {V : Type 0} where
  -- `d.get(k)`
  abbrev pub lookup : String → List (String × V) → Option V
  lookup k [] = none
  lookup k ((j, v) ∷ d) = if str_eq j k then some v else lookup k d

  -- `d[k] = v`
  abbrev pub put : String → V → List (String × V) → List (String × V)
  put k v [] = (k, v) ∷ []
  put k v ((j, w) ∷ d) = if str_eq j k then (j, v) ∷ d else (j, w) ∷ put k v d

  -- `k in d`
  abbrev pub has_key : String → List (String × V) → Bool
  has_key k = any (λ e. str_eq e.0 k)

  abbrev pub keys : List (String × V) → List String
  keys = map (λ e. e.0)

  pub lookup-put :
      (k j : String) (v : V) (d : List (String × V))
      → lookup j (put k v d) ≡ (if str_eq k j then some v else lookup j d)
  lookup-put k j v [] = refl
  lookup-put k j v ((i, w) ∷ d) =
      ground (arith, eq_iff k j, eq_iff i k, eq_iff i j, lookup-put k j v d)

  pub lookup-put_self : (k : String) (v : V) (d : List (String × V)) → lookup k (put k v d) ≡ some v
  lookup-put_self k v d = rw (lookup-put k k v d, eq_refl k) refl
