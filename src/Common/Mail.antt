-- ===== src/Common/Mail.antt =====
-- services/common/email_service.py: `EmailService`.
use godown_rbac_system.Prelude.{
  ℕ, suc, String, Bool, true, ◌&&◌, List, [], ◌∷◌, ◌++◌, Option, none, some, str_eq, if◌then◌else◌,
}
use godown_rbac_system.World.{Result, ok, err, value_error, mail_failure}

-- The arguments of `EmailMultiAlternatives`, with the HTML that is attached, if any.
pub record Mail : Type 0 where
  pub subject : String
  pub body : String
  pub from_email : String
  pub recipients : List String
  pub html : Option String

-- The mails whose `send` returned, and how often `send` was called. Where the address is empty,
-- Django's `send` returns without calling the backend.
pub record Outbox : Type 0 where
  pub sent : List Mail
  pub calls : ℕ

-- What the service takes from Django: templates, DEFAULT_FROM_EMAIL, and whether a mail is accepted
-- at each call of `send`, that is, whether the call returns.
pub record MailApi : Type 0 where
  pub render_to_string : String → List (String × String) → String
  pub default_from_email : String
  pub accepts : ℕ → Bool

-- `to: str | list[str]`
pub data Recipients : Type 0 where
  address : String → Recipients
  addresses : List String → Recipients

abbrev as_list : Recipients → List String
as_list (address s) = s ∷ []
as_list (addresses list) = list

-- `not value` of an optional text
abbrev pub is_falsy : Option String → Bool
is_falsy none = true
is_falsy (some s) = str_eq s ""

abbrev pub or_default : Option String → String → String
or_default none default = default
or_default (some s) default = if str_eq s "" then default else s

module _ (mails : MailApi) where
  abbrev body_of : Option String → List (String × String) → String
  body_of none context = ""
  body_of (some name) context = if str_eq name "" then "" else mails.render_to_string name context

  abbrev html_of : Option String → List (String × String) → Option String
  html_of none context = none
  html_of (some name) context =
      if str_eq name "" then none else some (mails.render_to_string name context)

  -- `msg.send(fail_silently=False)`
  abbrev pub deliver : Mail → Outbox → Result (Unit {0}) × Outbox
  deliver m o =
      if mails.accepts o.calls
      then (ok tt, record { sent = o.sent ++ m ∷ []; calls = suc o.calls })
      else (err mail_failure, record o { calls = suc o.calls })

  unfoldable pub send :
      String
      → Recipients
      → Option String
      → Option String
      → List (String × String)
      → Option String
      → Outbox
      → Result (Unit {0}) × Outbox
  send subject to template_html template_txt context from_email o =
      if is_falsy template_html && is_falsy template_txt
      then (err value_error, o)
      else deliver
          (record {
            subject = subject;
            body = body_of template_txt context;
            from_email = or_default from_email mails.default_from_email;
            recipients = as_list to;
            html = html_of template_html context;
          })
          o
