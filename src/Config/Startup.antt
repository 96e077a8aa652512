-- ===== src/Config/Startup.antt =====
-- Which environments pass the checks at startup.
use godown_rbac_system.Prelude.{
  ◌≤◌, String, Bool, true, false, List, [], ◌∷◌, Option, none, some, ◌≡◌, ◌≢◌, ◌↔◌, ◌⊎◌, inl, inr,
  refl, sym, ◌∙◌, leb, Bool-cases, All, arith,
}
use godown_rbac_system.Text.{strip}
use godown_rbac_system.Config.{
  AutoConfig, ConfigError, Checked, valid, failed, text_length, required_vars, get_bool, is_blank,
  missing_vars, checked_key, checked_vars, long_enough, validate_required_settings,
}

no_key : {key : String} → ◌≢◌ {A = Option String} none (some key)
no_key e = cc

not_valid : {x : ConfigError} → failed x ≢ valid tt
not_valid e = cc

module _ (config : AutoConfig) where
  -- The variable is set, to more than blanks.
  abbrev pub IsGiven : String → Type 0
  IsGiven key = is_blank config (config.value key) ≡ false

  not_nil : {k : String} {ks : List String} → k ∷ ks ≢ []
  not_nil e = cc

  none_missing : (ks : List String) → (missing_vars config ks ≡ []) ↔ All IsGiven ks
  unfolding missing_vars
  none_missing [] = ((λ _. tt), (λ _. refl))
  none_missing (k ∷ ks) = elim (Bool-cases (is_blank config (config.value k))) [
    | inl blank ↦ (
      (λ h.
          let some_left : k ∷ missing_vars config ks ≡ [] = rw blank at h in
          elim (not_nil some_left) [ ]),
      (λ h. let full = h.0 in cc),
    )
    | inr full ↦ (
      (λ h. (full, (none_missing ks).0 (rw full at h))),
      (λ h. rw full ((none_missing ks).1 h.1)),
    )
  ]

  -- The debugging mode is on, or the key is long enough.
  abbrev pub KeyFits : Type 0
  KeyFits =
      (get_bool config "DEBUG" true ≡ valid true)
      ⊎ ((get_bool config "DEBUG" true ≡ valid false)
          × ((key : String) → config.value "SECRET_KEY" ≡ some key → 16 ≤ text_length (strip key)))

  long_key :
      (o : Option String)
      → (long_enough config o ≡ valid tt)
        ↔ ((key : String) → o ≡ some key → 16 ≤ text_length (strip key))
  long_key none = ((λ h key same. elim (no_key same) [ ]), (λ h. refl))
  long_key (some s) = elim (Bool-cases (leb 16 (text_length (strip s)))) [
    | inl long ↦
        ((λ h key same. let eq : s ≡ key = cc in rw (← eq) (ground arith)), (λ h. rw long refl))
    | inr short ↦ (
      (λ h key same. elim (not_valid (rw short at h)) [ ]),
      (λ h. let long = h s refl in absurd (ground arith)),
    )
  ]

  key_fits :
      (debug : Checked Bool)
      → get_bool config "DEBUG" true ≡ debug
      → (checked_key config debug ≡ valid tt) ↔ KeyFits
  key_fits (valid true) e = ((λ _. inl e), (λ _. refl))
  key_fits (valid false) e = (
    (λ h. inr (e, (long_key (config.value "SECRET_KEY")).0 h)),
    (λ h. elim h [
      | inl on ↦ let bad : valid true ≡ valid false = sym on ∙ e in cc
      | inr fits ↦ (long_key (config.value "SECRET_KEY")).1 fits.1
    ]),
  )
  key_fits (failed x) e = (
    (λ h. elim (not_valid h) [ ]),
    (λ h. elim h [
      | inl on ↦ let bad : failed x ≡ valid true = sym e ∙ on in cc
      | inr fits ↦ let bad : failed x ≡ valid false = sym e ∙ fits.0 in cc
    ]),
  )

  by_missing :
      (missing : List String)
      → missing_vars config required_vars ≡ missing
      → (checked_vars config missing ≡ valid tt) ↔ (All IsGiven required_vars × KeyFits)
  by_missing [] e = (
    (λ h. ((none_missing required_vars).0 e, (key_fits (get_bool config "DEBUG" true) refl).0 h)),
    (λ h. (key_fits (get_bool config "DEBUG" true) refl).1 h.1),
  )
  by_missing (k ∷ ks) e = (
    (λ h. elim (not_valid h) [ ]),
    (λ h. elim (not_nil (sym e ∙ (none_missing required_vars).1 h.0)) [ ]),
  )

  -- The checks pass exactly if the secret key, the database's URL and that of Redis are set, and
  -- DEBUG is on or not set, or is off and the key, stripped, has 16 characters at least.
  pub validate_required_settings_iff :
      (validate_required_settings config ≡ valid tt) ↔ (All IsGiven required_vars × KeyFits)
  unfolding validate_required_settings
  validate_required_settings_iff = by_missing (missing_vars config required_vars) refl

  -- If DEBUG is not set, the settings run with DEBUG off, and the checks pass with a secret key of
  -- any length, as long as the three variables are set.
  pub startup_without_debug :
      config.value "DEBUG" ≡ none
      → All IsGiven required_vars
      → (get_bool config "DEBUG" false ≡ valid false)
        × (validate_required_settings config ≡ valid tt)
  unfolding get_bool
  startup_without_debug unset all_set =
      (rw unset refl, validate_required_settings_iff.1 (all_set, inl (rw unset refl)))
