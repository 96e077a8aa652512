-- ===== src/Common/Logging/Redaction.antt =====
-- What redaction leaves of a log event.
use godown_rbac_system.Prelude.{
  String, true, ◌&&◌, ◌||◌, List, [], ◌∷◌, some, ◌≡◌, refl, sym, ◌∙◌, inl, inr, str_eq, eq_iff,
  contains, arith, Bool-cases, if◌then◌else◌,
}
use godown_rbac_system.Dict.{lookup, put, has_key, keys, lookup-put}
use godown_rbac_system.Common.Logging.{sensitive_fields, redact_fields}

module _ {V : Type 0} where
  has_key-put :
      (f k : String) (v : V) (d : List (String × V))
      → has_key k (put f v d) ≡ (str_eq f k || has_key k d)
  has_key-put f k v [] = ground arith
  has_key-put f k v ((i, w) ∷ d) =
      ground (arith, eq_iff f k, eq_iff i f, eq_iff i k, has_key-put f k v d)

  keys-put :
      (f : String) (v : V) (d : List (String × V)) → has_key f d ≡ true → keys (put f v d) ≡ keys d
  keys-put f v [] h = cc
  keys-put f v ((i, w) ∷ d) h = elim (Bool-cases (str_eq i f)) [
    | inl same ↦ rw same refl
    | inr other ↦ rw (other, keys-put f v d (rw other at h)) refl
  ]

module _ {V : Type 0} (redacted : V) where
  abbrev step : String → List (String × V) → List (String × V)
  step f d = if has_key f d then put f redacted d else d

  lookup-step :
      (f k : String) (d : List (String × V))
      → lookup k (step f d) ≡ (if str_eq f k && has_key k d then some redacted else lookup k d)
  lookup-step f k d = elim (Bool-cases (str_eq f k)) [
    | inl same ↦ elim (Bool-cases (has_key f d)) [
      | inl there ↦
          rw there (rw (lookup-put f k redacted d, same) (rw (← (eq_iff f k).0 same, there) refl))
      | inr absent ↦ rw absent (rw same (rw (← (eq_iff f k).0 same, absent) refl))
    ]
    | inr other ↦ elim (Bool-cases (has_key f d)) [
      | inl there ↦ rw (there, lookup-put f k redacted d, other) refl
      | inr absent ↦ rw (absent, other) refl
    ]
  ]

  has_key-step : (f k : String) (d : List (String × V)) → has_key k (step f d) ≡ has_key k d
  has_key-step f k d = elim (Bool-cases (has_key f d)) [
    | inl there ↦ elim (Bool-cases (str_eq f k)) [
      | inl same ↦
          rw there (has_key-put f k redacted d ∙ rw same (rw (← (eq_iff f k).0 same) (sym there)))
      | inr other ↦ rw there (has_key-put f k redacted d ∙ rw other refl)
    ]
    | inr absent ↦ rw absent refl
  ]

  keys-step : (f : String) (d : List (String × V)) → keys (step f d) ≡ keys d
  keys-step f d = elim (Bool-cases (has_key f d)) [
    | inl there ↦ rw there (keys-put f redacted d there)
    | inr absent ↦ rw absent refl
  ]

  lookup-redact_fields :
      (fields : List String) (k : String) (d : List (String × V))
      → lookup k (redact_fields redacted fields d)
        ≡ (if contains k fields && has_key k d then some redacted else lookup k d)
  unfolding redact_fields
  lookup-redact_fields [] k d = refl
  lookup-redact_fields (f ∷ fields) k d =
      lookup-redact_fields fields k (step f d)
      ∙ rw (has_key-step f k d, lookup-step f k d) (ground arith)

  keys-redact_fields :
      (fields : List String) (d : List (String × V))
      → keys (redact_fields redacted fields d) ≡ keys d
  unfolding redact_fields
  keys-redact_fields [] d = refl
  keys-redact_fields (f ∷ fields) d = keys-redact_fields fields (step f d) ∙ keys-step f d

  -- In whatever order Python goes through the set of sensitive fields, an event keeps its keys, the
  -- value under a sensitive key is `[REDACTED]`, and the value under any other is as it was.
  pub redact_fields_order :
      (order : List String)
      → ((k : String) → contains k order ≡ contains k sensitive_fields)
      → (event : List (String × V))
      → (keys (redact_fields redacted order event) ≡ keys event)
        × ((k : String)
            → lookup k (redact_fields redacted order event) ≡ (
                if contains k sensitive_fields && has_key k event
                then some redacted
                else lookup k event))
  redact_fields_order order same event =
      (keys-redact_fields order event, (λ k. lookup-redact_fields order k event ∙ rw (same k) refl))
