-- ===== src/Common/Envelope/Shape.antt =====
-- Every error response has the shape of the envelope.
use godown_rbac_system.Prelude.{
  ℕ, String, Bool, true, false, ◌&&◌, Option, none, some, ◌≡◌, refl, inl, inr, str_eq, Bool-cases,
}
use godown_rbac_system.Common.Envelope.{
  Detail, text, items, fields, other, Items, nil, cons, Fields, end, field, or_text, printed,
  flatten_detail, flatten_items, flatten_fields, serialise_detail, serialise_items,
  serialise_fields, Raised, Envelope, under_key, error_code, raw_details, flat_message,
  saas_exception_handler,
}

-- Texts, lists and dictionaries of texts, and nothing else.
unfoldable mutual
  pub is_json : Detail → Bool
  is_json (text s) = true
  is_json (items xs) = all_json xs
  is_json (fields fs) = fields_json fs
  is_json (other s truth) = false

  pub all_json : Items → Bool
  all_json nil = true
  all_json (cons x xs) = is_json x && all_json xs

  pub fields_json : Fields → Bool
  fields_json end = true
  fields_json (field key value fs) = is_json value && fields_json fs

mutual
  unfolding is_json serialise_detail

  serialised : (d : Detail) → is_json (serialise_detail d) ≡ true
  serialised (text s) = refl
  serialised (items xs) = serialised_items xs
  serialised (fields fs) = serialised_fields fs
  serialised (other s truth) = refl

  serialised_items : (xs : Items) → all_json (serialise_items xs) ≡ true
  serialised_items nil = refl
  serialised_items (cons x xs) = rw (serialised x, serialised_items xs) refl

  serialised_fields : (fs : Fields) → fields_json (serialise_fields fs) ≡ true
  serialised_fields end = refl
  serialised_fields (field key value fs) = rw (serialised value, serialised_fields fs) refl

abbrev pub IsFull : String → Type 0
IsFull s = str_eq s "" ≡ false

or_text-IsFull : (m d : String) → IsFull d → IsFull (or_text m d)
or_text-IsFull m d h = elim (Bool-cases (str_eq m "")) [
  | inl empty ↦ rw empty h
  | inr full ↦ rw full full
]

-- The detail says something: it is a list or a dictionary, or no empty text.
abbrev pub Says : Option Detail → String → Type 0
Says none message = IsFull message
Says (some (text s)) message = IsFull s
Says (some (items xs)) message = Unit
Says (some (fields fs)) message = Unit
Says (some (other s truth)) message = IsFull s

-- DRF makes a list of the detail of a ValidationError that is neither a list nor a dictionary.
abbrev pub IsContainer : Option Detail → Type 0
IsContainer none = Unit
IsContainer (some (text s)) = ⊥
IsContainer (some (items xs)) = Unit
IsContainer (some (fields fs)) = Unit
IsContainer (some (other s truth)) = ⊥

module _ (str_of : Fields → String) (str_full : (fs : Fields) → IsFull (str_of fs)) where
  flatten_items-IsFull : (xs : Items) → IsFull (flatten_items str_of xs)
  unfolding flatten_detail
  flatten_items-IsFull nil = refl
  flatten_items-IsFull (cons x xs) =
      or_text-IsFull (flatten_detail str_of x) (flatten_items str_of xs) (flatten_items-IsFull xs)

  printed-IsFull : (fs : Fields) → IsFull (printed str_of fs)
  printed-IsFull end = refl
  printed-IsFull (field key value fs) = str_full (field key value fs)

  flat_message-IsFull :
      (d : Option Detail) (message : String)
      → Says d message
      → IsFull (flat_message str_of d message)
  unfolding flatten_detail
  flat_message-IsFull none message h = h
  flat_message-IsFull (some (text s)) message h = h
  flat_message-IsFull (some (items xs)) message h = flatten_items-IsFull xs
  flat_message-IsFull (some (fields fs)) message h =
      or_text-IsFull (flatten_fields str_of fs) (printed str_of fs) (printed-IsFull fs)
  flat_message-IsFull (some (other s true)) message h = h
  flat_message-IsFull (some (other s false)) message h = refl

  -- The details are a dictionary of texts, and neither the code nor the message is empty.
  pub record IsEnvelope (e : Envelope) : Type 0 where
    pub error : IsFull e.error
    pub message : IsFull e.message
    pub details : (fs : Fields) × (e.details ≡ fields fs) × (fields_json fs ≡ true)

  error_code-IsFull :
      (code : Option String) (class_code : String)
      → IsFull class_code
      → IsFull (error_code code class_code)
  error_code-IsFull none class_code h = h
  error_code-IsFull (some code) class_code h = elim (Bool-cases (str_eq code "")) [
    | inl empty ↦ rw empty h
    | inr full ↦ rw full full
  ]

  details_shape :
      (d : Option Detail)
      → IsContainer d
      → (fs : Fields) × (under_key (raw_details d) ≡ fields fs) × (fields_json fs ≡ true)
  unfolding serialise_detail is_json
  details_shape none h = (end, refl, refl)
  details_shape (some (items xs)) h = (
    field "non_field_errors" (items (serialise_items xs)) end,
    refl,
    rw (serialised_items xs) refl,
  )
  details_shape (some (fields fs)) h = (serialise_fields fs, refl, serialised_fields fs)
  details_shape (some (text s)) h = elim h [ ]
  details_shape (some (other s truth)) h = elim h [ ]

  -- Whatever is raised in a view, the answer is an envelope, if the code of the exception's class,
  -- its detail or else its message are not empty and the detail of a ValidationError is a list or
  -- a dictionary; the status is the one that DRF gives, and 500 where it gives none.
  pub saas_exception_handler-IsEnvelope :
      (exc : Raised) (status : Option ℕ)
      → IsFull exc.class_code
      → Says exc.detail exc.message
      → (exc.is_validation ≡ true → IsContainer exc.detail)
      → IsEnvelope (saas_exception_handler str_of exc status).1
        × ((saas_exception_handler str_of exc none).0 ≡ 500)
        × ((s : ℕ) → (saas_exception_handler str_of exc (some s)).0 ≡ s)
  unfolding saas_exception_handler is_json
  saas_exception_handler-IsEnvelope exc none named says container =
      (record { error = refl; message = refl; details = (end, refl, refl) }, refl, (λ s. refl))
  saas_exception_handler-IsEnvelope exc (some status) named says container =
      elim (Bool-cases exc.is_validation) [
        | inl validation ↦ rw validation (
          record {
            error = error_code-IsFull exc.default_code exc.class_code named;
            message = refl;
            details = details_shape exc.detail (container validation);
          },
          refl,
          (λ s. refl),
        )
        | inr plain ↦ rw plain (
          record {
            error = error_code-IsFull exc.default_code exc.class_code named;
            message = flat_message-IsFull exc.detail exc.message says;
            details = (end, refl, refl);
          },
          refl,
          (λ s. refl),
        )
      ]
