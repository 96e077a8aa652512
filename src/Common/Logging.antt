-- ===== src/Common/Logging.antt =====
-- apps/common/logging_config.py: the processors of log events.
pub mod Redaction
use godown_rbac_system.Prelude.{String, List, [], ◌∷◌, Option, none, some, str_eq, if◌then◌else◌}
use godown_rbac_system.Dict.{put, has_key}

-- SENSITIVE_FIELDS, a set: the order is one of those in which Python may go through it.
abbrev pub sensitive_fields : List String
sensitive_fields =
    "password" ∷ "new_password" ∷ "old_password" ∷ "confirm_password" ∷ "token" ∷ "access_token"
    ∷ "refresh_token" ∷ "reset_token" ∷ "id_token" ∷ "authorization" ∷ "email" ∷ "secret"
    ∷ "api_key" ∷ "secret_key" ∷ "credit_card" ∷ "ssn" ∷ []

module _ {V : Type 0} (redacted : V) where
  -- `redact_sensitive_fields` with the fields in some order; `redacted` is the text `[REDACTED]`.
  unfoldable pub redact_fields : List String → List (String × V) → List (String × V)
  redact_fields [] event = event
  redact_fields (field ∷ fields) event =
      redact_fields fields (if has_key field event then put field redacted event else event)

-- `_safe_add_logger_name`, with the text that a name is
unfoldable pub safe_add_logger_name :
    {V : Type 0} → (String → V) → Option String → List (String × V) → List (String × V)
safe_add_logger_name text none event = event
safe_add_logger_name text (some name) event =
    if str_eq name "" then event else put "logger" (text name) event
