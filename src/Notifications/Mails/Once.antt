-- ===== src/Notifications/Mails/Once.antt =====
-- However often the task that mails a notification is delivered, one mail leaves at most.
use godown_rbac_system.Prelude.{
  ℕ, String, List, [], ◌∷◌, Option, none, some, ◌≡◌, refl, sym, ap, ◌∙◌, inl, inr, ◌==◌, ==_iff,
  select, Bool-cases,
}
use godown_rbac_system.Orm.{one}
use godown_rbac_system.Orm.Laws.{get_lem, select_hit}
use godown_rbac_system.Models.{User, Notification}
use godown_rbac_system.World.{Db, Env, mail_failure, multiple_objects, bad_uuid}
use godown_rbac_system.Common.Idempotency.{ResultCache, cache_key, build_key}
use godown_rbac_system.Common.Mail.{MailApi, Mail, Outbox, send}
use godown_rbac_system.Common.Deliveries.{
  Delivery, Report, Ran, mailed, skipped, raised, Ended, InTime, deliver_each, deliver_all-Ended,
}
use godown_rbac_system.Notifications.Mails.{
  sent_text, skipped_text, mail_to_user, mail_for, mail_for_key, send_notice,
  send_email_notification,
}

module _ (env : Env) (mails : MailApi) (frontend_url : String) (text : String) where
  -- A mail about the notification with this key, to the user whose it is.
  abbrev pub AnnouncesIt : Mail → Type 0
  AnnouncesIt m =
      (n : Notification) × (u : User) × (env.parse_uuid text ≡ some n.id)
      × (n.user ≡ u.id)
      × (m.subject ≡ n.title)
      × (m.recipients ≡ u.email ∷ [])

  abbrev NoticeRan : Outbox → Report × Outbox → Type 0
  NoticeRan =
      Ran (sent_text env mails frontend_url text) (skipped_text env mails frontend_url text)
        AnnouncesIt

  by_users :
      (users : List User) (n : Notification) (db : Db) (o : Outbox)
      → env.parse_uuid text ≡ some n.id
      → select (λ u. u.id == n.user) db.users ≡ users
      → NoticeRan o (mail_to_user env mails frontend_url text n (one users) o)
  unfolding send
  by_users [] n db o k e = skipped refl refl
  by_users (u ∷ []) n db o k e = elim (Bool-cases (mails.accepts o.calls)) [
    | inl accepted ↦
        let same = (==_iff u.id n.user).0 (select_hit (λ v. v.id == n.user) db.users u [] e) in
        rw accepted (mailed _ (n, u, k, sym same, refl, refl) refl refl)
    | inr refused ↦ rw refused (raised mail_failure refl refl)
  ]
  by_users (u ∷ v ∷ users) n db o k e = raised multiple_objects refl refl

  by_rows :
      (rows : List Notification) (k : ℕ) (db : Db) (o : Outbox)
      → env.parse_uuid text ≡ some k
      → select (λ n. n.id == k) db.notifications ≡ rows
      → NoticeRan o (mail_for env mails frontend_url text db (one rows) o)
  by_rows [] k db o p e = skipped refl refl
  by_rows (n ∷ []) k db o p e =
      let same = (==_iff n.id k).0 (select_hit (λ m. m.id == k) db.notifications n [] e) in
      rw (get_lem env.users (λ u. u.id == n.user) db.users)
        (by_users (select (λ u. u.id == n.user) db.users) n db o (p ∙ ap some (sym same)) refl)
  by_rows (n ∷ m ∷ rows) k db o p e = raised multiple_objects refl refl

  by_key :
      (key : Option ℕ) (db : Db) (o : Outbox)
      → env.parse_uuid text ≡ key
      → NoticeRan o (mail_for_key env mails frontend_url text db key o)
  by_key none db o p = raised bad_uuid refl refl
  by_key (some k) db o p =
      rw (get_lem env.notifications (λ n. n.id == k) db.notifications)
        (by_rows (select (λ n. n.id == k) db.notifications) k db o p refl)

  send_notice-Ran :
      (db : Db) (o : Outbox) → NoticeRan o (send_notice env mails frontend_url text db o)
  unfolding send_notice
  send_notice-Ran db o = by_key (env.parse_uuid text) db o refl

  -- If the cache has nothing under the task's key, then among deliveries of the task for one
  -- notification within a day of each other either all raise, and nothing is sent; or one mail is
  -- sent, with the notification's title and to its user, and all deliveries that return say so; or
  -- they all say that it was skipped, and nothing is sent.
  pub send_email_notification-Ended :
      {Cache : Type 0} (api : ResultCache String Cache) (limit : ℕ) (ds : List Delivery)
      (o : Outbox) (c : Cache)
      → ((t : ℕ) → api.get (cache_key (build_key "send_email_notification" text)) t c ≡ none)
      → InTime limit ds
      → let all =
          deliver_each
            (λ d. send_email_notification env mails frontend_url api text d.start d.finish d.db)
            ds
            o
            c in
        Ended
          (sent_text env mails frontend_url text)
          (skipped_text env mails frontend_url text)
          AnnouncesIt
          o.sent
          all.0
          all.1.sent
  unfolding send_email_notification
  send_email_notification-Ended api limit ds o c empty h =
      deliver_all-Ended api (build_key "send_email_notification" text)
        (send_notice env mails frontend_url text) (sent_text env mails frontend_url text)
        (skipped_text env mails frontend_url text) AnnouncesIt send_notice-Ran limit ds o c empty h
