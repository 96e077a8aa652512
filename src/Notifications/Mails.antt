-- ===== src/Notifications/Mails.antt =====
-- apps/notifications/tasks.py: the mail for a notification.
pub mod Once
use Prim.Native.String as Text
use godown_rbac_system.Prelude.{ℕ, String, List, [], ◌∷◌, Option, none, some, ◌==◌}
use godown_rbac_system.Orm.{Got, found, missing, several, get}
use godown_rbac_system.Models.{User, Notification}
use godown_rbac_system.World.{Db, Env, Result, ok, err, multiple_objects, bad_uuid}
use godown_rbac_system.Common.Idempotency.{ResultCache, default_ttl_seconds, build_key, run}
use godown_rbac_system.Common.Mail.{MailApi, Outbox, address, send}
use godown_rbac_system.Users.PasswordReset.{mail_name}

module _ (env : Env) (mails : MailApi) (frontend_url : String) where
  abbrev pub sent_text : String → String
  sent_text text = Text.◌++◌ "email_notification_sent:" text

  abbrev pub skipped_text : String → String
  skipped_text text = Text.◌++◌ "email_notification_skipped:" text

  abbrev pub reported : String → Result (Unit {0}) × Outbox → Result (Option String) × Outbox
  reported text (ok done, o) = (ok (some text), o)
  reported text (err e, o) = (err e, o)

  -- The inner join of `select_related("user")` finds nothing where there is no user.
  abbrev pub mail_to_user :
      String → Notification → Got User → Outbox → Result (Option String) × Outbox
  mail_to_user text n (found user) o = reported (sent_text text) (
      send mails n.title (address user.email) (some "emails/notification.html")
        (some "emails/notification.txt")
        (("user_name", mail_name user)
          ∷ ("title", n.title)
          ∷ ("body", n.body)
          ∷ ("frontend_url", frontend_url)
          ∷ [])
        none o)
  mail_to_user text n missing o = (ok (some (skipped_text text)), o)
  mail_to_user text n several o = (err multiple_objects, o)

  abbrev pub mail_for : String → Db → Got Notification → Outbox → Result (Option String) × Outbox
  mail_for text db (found n) o =
      mail_to_user text n (get env.users (λ u. u.id == n.user) db.users) o
  mail_for text db missing o = (ok (some (skipped_text text)), o)
  mail_for text db several o = (err multiple_objects, o)

  abbrev pub mail_for_key : String → Db → Option ℕ → Outbox → Result (Option String) × Outbox
  mail_for_key text db none o = (err bad_uuid, o)
  mail_for_key text db (some k) o =
      mail_for text db (get env.notifications (λ n. n.id == k) db.notifications) o

  -- `_send` of the task, with the text of the notification's key
  unfoldable pub send_notice : String → Db → Outbox → Result (Option String) × Outbox
  unfolding send
  send_notice text db o = mail_for_key text db (env.parse_uuid text) o

  unfoldable pub send_email_notification :
      {Cache : Type 0}
      → ResultCache String Cache
      → String
      → ℕ
      → ℕ
      → Db
      → Outbox
      → Cache
      → Result (Option String) × Outbox × Cache
  unfolding run send_notice
  send_email_notification api text start finish db o c =
      run api (build_key "send_email_notification" text) (send_notice text db) default_ttl_seconds
        start finish o c
