-- ===== src/Users/Welcome.antt =====
-- services/users/welcome_email_service.py and apps/users/tasks.py: the mail after a registration.
pub mod Once
use Prim.Native.String as Text
use godown_rbac_system.Prelude.{ℕ, String, List, [], ◌∷◌, Option, none, some, ◌==◌}
use godown_rbac_system.Orm.{Got, found, missing, several, get}
use godown_rbac_system.Models.{User}
use godown_rbac_system.World.{Db, Env, Result, ok, err, validation, multiple_objects, user_missing}
use godown_rbac_system.Common.Idempotency.{ResultCache, default_ttl_seconds, build_key, run}
use godown_rbac_system.Common.Mail.{MailApi, Outbox, address, send}
use godown_rbac_system.Users.PasswordReset.{mail_name}

module _ (env : Env) (mails : MailApi) where
  abbrev pub sent_text : ℕ → String
  sent_text k = Text.◌++◌ "welcome_sent:" (env.show_id k)

  abbrev pub skipped_text : ℕ → String
  skipped_text k = Text.◌++◌ "welcome_skipped:" (env.show_id k)

  abbrev reported : String → Result (Unit {0}) × Outbox → Result String × Outbox
  reported text (ok done, o) = (ok text, o)
  reported text (err e, o) = (err e, o)

  -- `user.get_full_name() or user.username` is `mail_name`.
  abbrev pub welcome : ℕ → Got User → Outbox → Result String × Outbox
  welcome k (found user) o = reported (sent_text k) (
      send mails "Welcome to Django SaaS Kit" (address user.email) (some "emails/welcome.html")
        (some "emails/welcome.txt") (("user_name", mail_name user) ∷ ("email", user.email) ∷ [])
        none o)
  welcome k missing o = (err (validation (user_missing k)), o)
  welcome k several o = (err multiple_objects, o)

  -- `WelcomeEmailService.send_to_user`
  unfoldable pub send_to_user : ℕ → Db → Outbox → Result String × Outbox
  unfolding send
  send_to_user k db o = welcome k (get env.users (λ u. u.id == k) db.users) o

  abbrev pub skipped_if_invalid : String → Result String × Outbox → Result (Option String) × Outbox
  skipped_if_invalid text (ok s, o) = (ok (some s), o)
  skipped_if_invalid text (err (validation message), o) = (ok (some text), o)
  skipped_if_invalid text (err e, o) = (err e, o)

  -- `_send` of the task
  unfoldable pub send_or_skip : ℕ → Db → Outbox → Result (Option String) × Outbox
  unfolding send_to_user
  send_or_skip k db o = skipped_if_invalid (skipped_text k) (send_to_user k db o)

  -- The task reads the tables at its time.
  unfoldable pub send_welcome_email :
      {Cache : Type 0}
      → ResultCache String Cache
      → ℕ
      → ℕ
      → ℕ
      → Db
      → Outbox
      → Cache
      → Result (Option String) × Outbox × Cache
  unfolding run send_or_skip
  send_welcome_email api k start finish db o c =
      run api (build_key "welcome_email" (env.show_id k)) (send_or_skip k db) default_ttl_seconds
        start finish o c
