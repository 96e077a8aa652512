-- ===== src/Users/PasswordReset/Sending.antt =====
-- The mail of a password reset: the link of services/auth/password_reset_service.py, and the task
-- `send_password_reset_email` of apps/authentication/tasks.py.
use Prim.Native.String as Text
use godown_rbac_system.Prelude.{
  ℕ, zero, suc, ◌+◌, ◌≤◌, ◌<◌, String, true, false, List, [], ◌∷◌, ◌++◌, some, ◌≡◌, ◌⊎◌, refl, inl,
  inr, arith, Bool-cases,
}
use godown_rbac_system.World.{Result, ok, err, mail_failure}
use godown_rbac_system.Text.{rstrip_char}
use godown_rbac_system.Common.Mail.{Mail, MailApi, Outbox, deliver}
use godown_rbac_system.Common.Retries.{with_retries}
use godown_rbac_system.Users.PasswordReset.{ResetMail}

unfoldable pub reset_link : String → ResetMail → String
unfolding rstrip_char
reset_link frontend_url m =
    Text.◌++◌ (rstrip_char b'/' frontend_url)
      (Text.◌++◌ "/reset-password/?uid=" (Text.◌++◌ m.uid (Text.◌++◌ "&token=" m.token)))

-- `max_retries` of the task
abbrev pub max_retries : ℕ
max_retries = 3

abbrev pub sent_text : ResetMail → String
sent_text m = Text.◌++◌ "password_reset_email:sent:" m.recipient_email

abbrev reported : ResetMail → Result (Unit {0}) × Outbox → Result String × Outbox
reported m (ok done, o) = (ok (sent_text m), o)
reported m (err e, o) = (err e, o)

-- `hours_valid` is the number as the templates show it.
module _ (mails : MailApi) (frontend_url hours_valid : String) where
  abbrev context : ResetMail → List (String × String)
  context m =
      ("user_name", m.user_name)
      ∷ ("reset_link", reset_link frontend_url m)
      ∷ ("uid", m.uid)
      ∷ ("token", m.token)
      ∷ ("hours_valid", hours_valid)
      ∷ []

  abbrev pub reset_mail : ResetMail → Mail
  reset_mail m = record {
    subject = "Password Reset Request";
    body = mails.render_to_string "emails/password_reset.txt" (context m);
    from_email = mails.default_from_email;
    recipients = m.recipient_email ∷ [];
    html = some (mails.render_to_string "emails/password_reset.html" (context m));
  }

  abbrev pub attempt : ResetMail → Outbox → Result String × Outbox
  attempt m o = reported m (deliver mails (reset_mail m) o)

  -- The task with its retries.
  unfoldable pub send_password_reset_email : ResetMail → Outbox → Result String × Outbox
  unfolding with_retries
  send_password_reset_email m = with_retries max_retries (attempt m)

  -- How the attempts end: some calls of `send` were refused, no more than there are retries,
  -- and the next was accepted, or all of them were refused.
  abbrev pub Tried : ℕ → ResetMail → Outbox → Result String × Outbox → Type 0
  Tried retries m o end =
      ((k : ℕ) × (k ≤ retries)
        × ((j : ℕ) → j < k → mails.accepts (o.calls + j) ≡ false)
        × (mails.accepts (o.calls + k) ≡ true)
        × (end.0 ≡ ok (sent_text m))
        × (end.1.sent ≡ o.sent ++ reset_mail m ∷ [])
        × (end.1.calls ≡ suc (o.calls + k)))
      ⊎ (((j : ℕ) → j < suc retries → mails.accepts (o.calls + j) ≡ false)
          × (end.0 ≡ err mail_failure)
          × (end.1.sent ≡ o.sent)
          × (end.1.calls ≡ suc (o.calls + retries)))

  refused_from :
      (c n : ℕ)
      → mails.accepts c ≡ false
      → ((j : ℕ) → j < n → mails.accepts (suc c + j) ≡ false)
      → (j : ℕ) → j < suc n
      → mails.accepts (c + j) ≡ false
  refused_from c n first rest zero h = let e : c + 0 ≡ c = omega arith in rw e first
  refused_from c n first rest (suc j) h =
      let e : c + suc j ≡ suc c + j = omega arith in rw e (rest j (omega arith))

  later :
      (retries : ℕ) (m : ResetMail) (o : Outbox) (end : Result String × Outbox)
      → mails.accepts o.calls ≡ false
      → Tried retries m (record o { calls = suc o.calls }) end
      → Tried (suc retries) m o end
  later retries m o end refused (inl (k, few, rest, accepted, text, sent, calls)) =
      let e : o.calls + suc k ≡ suc o.calls + k = omega arith in
      inl (
        suc k,
        omega arith,
        refused_from o.calls k refused rest,
        rw e accepted,
        text,
        sent,
        rw e calls,
      )
  later retries m o end refused (inr (rest, text, sent, calls)) =
      let e : o.calls + suc retries ≡ suc o.calls + retries = omega arith in
      inr (refused_from o.calls (suc retries) refused rest, text, sent, rw e calls)

  at_once :
      (retries : ℕ) (m : ResetMail) (o : Outbox)
      → mails.accepts o.calls ≡ true
      → Tried retries m o
          (ok (sent_text m), record { sent = o.sent ++ reset_mail m ∷ []; calls = suc o.calls })
  at_once retries m o accepted =
      let e : o.calls + 0 ≡ o.calls = omega arith in
      inl (0, omega arith, (λ j h. ground arith), rw e accepted, refl, refl, rw e refl)

  tried :
      (retries : ℕ) (m : ResetMail) (o : Outbox)
      → Tried retries m o (with_retries retries (attempt m) o)
  unfolding with_retries
  tried zero m o = elim (Bool-cases (mails.accepts o.calls)) [
    | inl accepted ↦ rw accepted (at_once zero m o accepted)
    | inr refused ↦
        let e : o.calls + 0 ≡ o.calls = omega arith in
        rw refused
          (inr (refused_from o.calls 0 refused (λ j h. ground arith), refl, refl, rw e refl))
  ]
  tried (suc retries) m o = elim (Bool-cases (mails.accepts o.calls)) [
    | inl accepted ↦ rw accepted (at_once (suc retries) m o accepted)
    | inr refused ↦
        rw refused
          (later retries m o _ refused (tried retries m (record o { calls = suc o.calls })))
  ]

  -- The task calls Django's `send` four times at most: if one of four calls in a row is accepted, the
  -- task sends one mail, to the user's address, at the first that is, and returns; if all four are
  -- refused, the task raises and nothing is sent.
  pub send_password_reset_email-Tried :
      (m : ResetMail) (o : Outbox) → Tried max_retries m o (send_password_reset_email m o)
  unfolding send_password_reset_email
  send_password_reset_email-Tried m o = tried max_retries m o
