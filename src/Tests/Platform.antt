-- ===== src/Tests/Platform.antt =====
-- The theorems on startup, logs, traces and error responses.
use godown_rbac_system.Prelude.{
  ℕ, String, true, false, ◌&&◌, List, [], ◌∷◌, none, some, ◌≡◌, ◌↔◌, refl, All, contains,
  if◌then◌else◌, str_eq,
}
use godown_rbac_system.World.{ok}
use godown_rbac_system.Dict.{lookup, has_key, keys}
use godown_rbac_system.Config.{AutoConfig, valid, required_vars, validate_required_settings}
use godown_rbac_system.Config.Startup.{IsGiven, KeyFits, validate_required_settings_iff}
use godown_rbac_system.Common.Logging.{sensitive_fields, redact_fields}
use godown_rbac_system.Common.Logging.Redaction.{redact_fields_order}
use godown_rbac_system.Common.Tracing.{Headers, Trace, request_context}
use godown_rbac_system.Common.Tracing.Propagation.{
  publishing, Logs, id_of_request, request_context-traced,
}
use godown_rbac_system.Common.CodeName.{camel_to_snake}
use godown_rbac_system.Common.Envelope.{
  text, items, nil, cons, Fields, Raised, saas_exception_handler,
}
use godown_rbac_system.Common.Envelope.Shape.{IsEnvelope, saas_exception_handler-IsEnvelope}

abbrev short_key : AutoConfig
short_key = record {
  value = λ key. if str_eq key "DEBUG" then some "False" else some "fifteen letters";
  cast_boolean = λ s. some false;
}

validate_required_settings_iff_example :
    (validate_required_settings short_key ≡ valid tt)
    ↔ (All (IsGiven short_key) required_vars × KeyFits short_key)
validate_required_settings_iff_example = validate_required_settings_iff short_key

abbrev login_event : List (String × String)
login_event = ("event", "login") ∷ ("email", "ann@one.example") ∷ ("password", "hunter2") ∷ []

redact_fields_order_example :
    (keys (redact_fields "[REDACTED]" sensitive_fields login_event) ≡ keys login_event)
    × ((k : String)
        → lookup k (redact_fields "[REDACTED]" sensitive_fields login_event) ≡ (
            if contains k sensitive_fields && has_key k login_event
            then some "[REDACTED]"
            else lookup k login_event))
redact_fields_order_example =
    redact_fields_order "[REDACTED]" sensitive_fields (λ k. refl) login_event

abbrev new_id : ℕ → String
new_id k = "6ba7b810"

abbrev trace : Trace
trace = record { vars = []; published = []; draws = 0 }

request_context-traced_example :
    let response =
      request_context new_id
        (publishing ((("task", "mail") ∷ []) ∷ []) (ok tt))
        (some "abc-123")
        trace in
    ((new : List Headers) × (response.1.published ≡ new)
      × All (Logs new_id (λ k. refl) (id_of_request new_id (λ k. refl) (some "abc-123") trace)) new)
    × ((body : Unit {0}) → ok tt ≡ ok body → response.0 ≡ ok (body, "abc-123"))
    × (response.1.vars ≡ [])
    × ((s : String) → some "abc-123" ≡ some s → str_eq s "" ≡ false → "abc-123" ≡ s)
request_context-traced_example =
    request_context-traced new_id (λ k. refl) (some "abc-123") ((("task", "mail") ∷ []) ∷ [])
      (ok tt) trace

-- `HTTPError`
abbrev http_error : List ℕ
http_error = b'H' ∷ b'T' ∷ b'T' ∷ b'P' ∷ b'E' ∷ b'r' ∷ b'r' ∷ b'o' ∷ b'r' ∷ []

-- `http_error`
http_error_code :
    camel_to_snake http_error
    ≡ b'h' ∷ b't' ∷ b't' ∷ b'p' ∷ b'_' ∷ b'e' ∷ b'r' ∷ b'r' ∷ b'o' ∷ b'r' ∷ []
unfolding camel_to_snake
http_error_code = refl

abbrev as_text : Fields → String
as_text fs = "{}"

abbrev bad_input : Raised
bad_input = record {
  class_code = "validation_error";
  default_code = some "invalid";
  detail = some (items (cons (text "This field is required.") nil));
  message = "";
  is_validation = true;
}

saas_exception_handler-IsEnvelope_example :
    IsEnvelope as_text (λ fs. refl) (saas_exception_handler as_text bad_input (some 400)).1
    × ((saas_exception_handler as_text bad_input none).0 ≡ 500)
    × ((s : ℕ) → (saas_exception_handler as_text bad_input (some s)).0 ≡ s)
saas_exception_handler-IsEnvelope_example =
    saas_exception_handler-IsEnvelope as_text (λ fs. refl) bad_input (some 400) refl tt (λ h. tt)
