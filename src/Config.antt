-- ===== src/Config.antt =====
-- config/env.py: reading the environment, and the checks at startup.
pub mod Startup
use godown_rbac_system.Prelude.{
  ℕ, suc, String, Bool, true, false, List, [], ◌∷◌, Option, none, some, str_eq, leb, not,
  if◌then◌else◌,
}
use godown_rbac_system.Text.{strip}

-- `UndefinedValueError` with the names of the variables, and `ValueError`.
pub data ConfigError : Type 0 where
  undefined_values : List String → ConfigError
  not_a_boolean : ConfigError
  secret_key_too_short : ConfigError

pub data Checked (A : Type 0) : Type 0 where
  valid : A → Checked A
  failed : ConfigError → Checked A

-- `len(s)`
abbrev pub text_length : String → ℕ
text_length String.[] = 0
text_length (String.◌∷◌ c s) = suc (text_length s)

abbrev pub required_vars : List String
required_vars = "SECRET_KEY" ∷ "DATABASE_URL" ∷ "REDIS_URL" ∷ []

abbrev pub min_secret_key_length : ℕ
min_secret_key_length = 16

-- python-decouple: the value of a variable in the environment or in `.env`, if it is there, and
-- its reading of a Boolean.
pub record AutoConfig : Type 0 where
  pub value : String → Option String
  pub cast_boolean : String → Option Bool

module _ (config : AutoConfig) where
  abbrev defined : String → Option String → Checked String
  defined key none = failed (undefined_values (key ∷ []))
  defined key (some s) = valid s

  abbrev defined_or : Option String → Option String → String → Checked String
  defined_or none none key = failed (undefined_values (key ∷ []))
  defined_or none (some default) key = valid default
  defined_or (some s) default key = valid s

  unfoldable pub get_str : String → Option String → Bool → Checked String
  get_str key default true = defined key (config.value key)
  get_str key default false = defined_or (config.value key) default key

  abbrev boolean : Option Bool → Checked Bool
  boolean none = failed not_a_boolean
  boolean (some b) = valid b

  abbrev boolean_or : Option String → Bool → Checked Bool
  boolean_or none default = valid default
  boolean_or (some s) default = boolean (config.cast_boolean s)

  unfoldable pub get_bool : String → Bool → Checked Bool
  get_bool key default = boolean_or (config.value key) default

  abbrev is_blank : Option String → Bool
  is_blank none = true
  is_blank (some s) = str_eq (strip s) ""

  unfoldable pub missing_vars : List String → List String
  unfolding strip
  missing_vars [] = []
  missing_vars (key ∷ keys) =
      if is_blank (config.value key) then key ∷ missing_vars keys else missing_vars keys

  abbrev long_enough : Option String → Checked (Unit {0})
  long_enough none = valid tt
  long_enough (some key) =
      if leb min_secret_key_length (text_length (strip key))
      then valid tt
      else failed secret_key_too_short

  abbrev checked_key : Checked Bool → Checked (Unit {0})
  checked_key (valid true) = valid tt
  checked_key (valid false) = long_enough (config.value "SECRET_KEY")
  checked_key (failed e) = failed e

  abbrev checked_vars : List String → Checked (Unit {0})
  checked_vars [] = checked_key (get_bool "DEBUG" true)
  checked_vars (key ∷ keys) = failed (undefined_values (key ∷ keys))

  unfoldable pub validate_required_settings : Checked (Unit {0})
  unfolding missing_vars get_bool strip
  validate_required_settings = checked_vars (missing_vars required_vars)
