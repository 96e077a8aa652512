-- ===== src/Users/Welcome/Once.antt =====
-- However often the welcome task is delivered, one mail leaves at most.
use godown_rbac_system.Prelude.{
  ℕ, String, List, [], ◌∷◌, none, ◌≡◌, refl, inl, inr, ◌==◌, ==_iff, select, Bool-cases,
}
use godown_rbac_system.Orm.{one}
use godown_rbac_system.Orm.Laws.{get_lem, select_hit}
use godown_rbac_system.Models.{User}
use godown_rbac_system.World.{Db, Env, multiple_objects, mail_failure}
use godown_rbac_system.Common.Idempotency.{ResultCache, cache_key, build_key}
use godown_rbac_system.Common.Mail.{MailApi, Mail, Outbox, send}
use godown_rbac_system.Common.Deliveries.{
  Delivery, Report, Ran, mailed, skipped, raised, Ended, InTime, deliver_each, deliver_all-Ended,
}
use godown_rbac_system.Users.Welcome.{
  sent_text, skipped_text, welcome, skipped_if_invalid, send_or_skip, send_welcome_email,
}

module _ (env : Env) (mails : MailApi) (k : ℕ) where
  -- A mail that welcomes a user, and nobody else.
  abbrev pub WelcomesUser : Mail → Type 0
  WelcomesUser m =
      (u : User) × (u.id ≡ k)
      × (m.subject ≡ "Welcome to Django SaaS Kit")
      × (m.recipients ≡ u.email ∷ [])

  abbrev WelcomeRan : Outbox → Report × Outbox → Type 0
  WelcomeRan = Ran (sent_text env mails k) (skipped_text env mails k) WelcomesUser

  by_rows :
      (rows : List User) (db : Db) (o : Outbox)
      → select (λ u. u.id == k) db.users ≡ rows
      → WelcomeRan o (
          skipped_if_invalid env mails
            (skipped_text env mails k)
            (welcome env mails k (one rows) o))
  unfolding send
  by_rows [] db o e = skipped refl refl
  by_rows (u ∷ []) db o e = elim (Bool-cases (mails.accepts o.calls)) [
    | inl accepted ↦ rw accepted (
        mailed _ (u, (==_iff u.id k).0 (select_hit (λ v. v.id == k) db.users u [] e), refl, refl)
          refl refl)
    | inr refused ↦ rw refused (raised mail_failure refl refl)
  ]
  by_rows (u ∷ v ∷ rows) db o e = raised multiple_objects refl refl

  send_or_skip-Ran : (db : Db) (o : Outbox) → WelcomeRan o (send_or_skip env mails k db o)
  unfolding send_or_skip
  send_or_skip-Ran db o =
      rw (get_lem env.users (λ u. u.id == k) db.users)
        (by_rows (select (λ u. u.id == k) db.users) db o refl)

  -- If the cache has nothing under the task's key, then among deliveries of the welcome task within
  -- a day of each other either all raise, and nothing is sent; or one mail is sent, to the user, and
  -- all deliveries that return say so; or they all say that it was skipped, and nothing is sent.
  pub send_welcome_email-Ended :
      {Cache : Type 0} (api : ResultCache String Cache) (limit : ℕ) (ds : List Delivery)
      (o : Outbox) (c : Cache)
      → ((t : ℕ) → api.get (cache_key (build_key "welcome_email" (env.show_id k))) t c ≡ none)
      → InTime limit ds
      → let all =
          deliver_each (λ d. send_welcome_email env mails api k d.start d.finish d.db) ds o c in
        Ended
          (sent_text env mails k)
          (skipped_text env mails k)
          WelcomesUser
          o.sent
          all.0
          all.1.sent
  unfolding send_welcome_email
  send_welcome_email-Ended api limit ds o c empty h =
      deliver_all-Ended api (build_key "welcome_email" (env.show_id k)) (send_or_skip env mails k)
        (sent_text env mails k) (skipped_text env mails k) WelcomesUser send_or_skip-Ran limit ds o
        c empty h
