-- ===== src/Common/Envelope.antt =====
-- apps/common/exceptions.py: the envelope of every error response.
pub mod Shape
use Prim.Native.String as Text
use godown_rbac_system.Prelude.{
  ℕ, String, Bool, true, false, List, [], ◌∷◌, Option, none, some, str_eq, if◌then◌else◌,
}

-- What DRF's `detail` and the JSON of a response hold: texts, lists, dictionaries, and what else
-- Python has, by its `str` and whether it is true.
mutual
  pub data Detail : Type 0 where
    text : String → Detail
    items : Items → Detail
    fields : Fields → Detail
    other : String → Bool → Detail

  pub data Items : Type 0 where
    nil : Items
    cons : Detail → Items → Items

  pub data Fields : Type 0 where
    end : Fields
    field : String → Detail → Fields → Fields

abbrev pub or_text : String → String → String
or_text message default = if str_eq message "" then default else message

abbrev pub prefixed : String → String → String
prefixed key message = Text.◌++◌ key (Text.◌++◌ ": " message)

-- `str(detail) if detail else …` of a dictionary without a message
abbrev pub printed : (Fields → String) → Fields → String
printed str_of end = "An error occurred."
printed str_of fs = str_of fs

module _ (str_of : Fields → String) where
  -- `_flatten_detail`; the messages of a dictionary are those before `printed`.
  unfoldable mutual
    pub flatten_detail : Detail → String
    flatten_detail (text s) = s
    flatten_detail (items xs) = flatten_items xs
    flatten_detail (fields fs) = or_text (flatten_fields fs) (printed str_of fs)
    flatten_detail (other s truth) = if truth then s else "An error occurred."

    pub flatten_items : Items → String
    flatten_items nil = "Invalid input."
    flatten_items (cons x xs) = or_text (flatten_detail x) (flatten_items xs)

    pub flatten_fields : Fields → String
    flatten_fields end = ""
    flatten_fields (field key value fs) =
        let message = flatten_detail value in
        if str_eq message "" then flatten_fields fs else prefixed key message

-- `_serialise_detail`
unfoldable mutual
  pub serialise_detail : Detail → Detail
  serialise_detail (text s) = text s
  serialise_detail (items xs) = items (serialise_items xs)
  serialise_detail (fields fs) = fields (serialise_fields fs)
  serialise_detail (other s truth) = text s

  pub serialise_items : Items → Items
  serialise_items nil = nil
  serialise_items (cons x xs) = cons (serialise_detail x) (serialise_items xs)

  pub serialise_fields : Fields → Fields
  serialise_fields end = end
  serialise_fields (field key value fs) = field key (serialise_detail value) (serialise_fields fs)

-- An exception as the handler looks at it: the code of its class's name, `default_code`, `detail`,
-- `str`, and whether it is a ValidationError.
pub record Raised : Type 0 where
  pub class_code : String
  pub default_code : Option String
  pub detail : Option Detail
  pub message : String
  pub is_validation : Bool

pub record Envelope : Type 0 where
  pub error : String
  pub message : String
  pub details : Detail

abbrev pub no_details : Detail
no_details = fields end

abbrev pub server_error : Envelope
server_error = record {
  error = "server_error";
  message = "An unexpected error occurred.";
  details = no_details;
}

abbrev pub error_code : Option String → String → String
error_code none class_code = class_code
error_code (some code) class_code = if str_eq code "" then class_code else code

-- `{"non_field_errors": raw} if isinstance(raw, list) else raw`
abbrev pub under_key : Detail → Detail
under_key (items xs) = fields (field "non_field_errors" (items xs) end)
under_key raw = raw

abbrev pub raw_details : Option Detail → Detail
raw_details none = no_details
raw_details (some d) = serialise_detail d

abbrev pub flat_message : (Fields → String) → Option Detail → String → String
flat_message str_of none message = message
flat_message str_of (some d) message = flatten_detail str_of d

-- `saas_exception_handler`, with the status of the response that DRF's own handler gives, if it
-- gives one.
unfoldable pub saas_exception_handler : (Fields → String) → Raised → Option ℕ → ℕ × Envelope
unfolding flatten_detail serialise_detail
saas_exception_handler str_of exc none = (500, server_error)
saas_exception_handler str_of exc (some status) = (
  status,
  if exc.is_validation
      then record {
        error = error_code exc.default_code exc.class_code;
        message = "Invalid input.";
        details = under_key (raw_details exc.detail);
      }
      else record {
        error = error_code exc.default_code exc.class_code;
        message = flat_message str_of exc.detail exc.message;
        details = no_details;
      },
)

-- `handler404` and `handler500`
unfoldable pub handler404 : ℕ × Envelope
handler404 = (
  404,
  record {
    error = "not_found";
    message = "The requested resource was not found.";
    details = no_details;
  },
)

unfoldable pub handler500 : ℕ × Envelope
handler500 = (500, server_error)
