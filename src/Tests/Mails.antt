-- ===== src/Tests/Mails.antt =====
-- The theorems on tasks that mail, where the backend refuses the first mail.
use godown_rbac_system.Prelude.{leb, ◌≡◌, not, ◌==◌, List, [], ◌∷◌, refl, arith}
use godown_rbac_system.Common.Mail.{Outbox, MailApi}
use godown_rbac_system.Common.Deliveries.{Delivery, Ended, deliver_each}
use godown_rbac_system.Users.Welcome
use godown_rbac_system.Users.Welcome.Once.{WelcomesUser, send_welcome_email-Ended}
use godown_rbac_system.Users.PasswordReset.{ResetMail}
use godown_rbac_system.Users.PasswordReset.Sending.{
  reset_link, Tried, send_password_reset_email, send_password_reset_email-Tried,
}
use godown_rbac_system.Tests.Environment.{test_env, test_db}
use godown_rbac_system.Tests.Deliveries.{results}

abbrev mails : MailApi
mails = record {
  render_to_string = λ name context. name;
  default_from_email = "noreply@one.example";
  accepts = λ call. not (call == 0);
}

-- A backend that is down for two calls.
abbrev slow_mails : MailApi
slow_mails = record mails { accepts = λ call. not (leb call 1) }

abbrev bobs_link : ResetMail
bobs_link = record {
  recipient_email = "bob@one.example";
  user_name = "bob";
  uid = "Mg";
  token = "abc";
}

abbrev outbox : Outbox
outbox = record { sent = []; calls = 0 }

-- A delivery, its retry a minute later, and a double delivery.
abbrev deliveries : List Delivery
deliveries =
    record { start = 0; finish = 1; db = test_db }
    ∷ record { start = 60; finish = 61; db = test_db }
    ∷ record { start = 62; finish = 62; db = test_db }
    ∷ []

send_welcome_email-Ended_example :
    let all =
      deliver_each
        (λ d. Welcome.send_welcome_email test_env mails results 2 d.start d.finish d.db)
        deliveries
        outbox
        [] in
    Ended
      (Welcome.sent_text test_env mails 2)
      (Welcome.skipped_text test_env mails 2)
      (WelcomesUser test_env mails 2)
      []
      all.0
      all.1.sent
send_welcome_email-Ended_example =
    send_welcome_email-Ended test_env mails 2 results 100 deliveries outbox [] (λ t. refl)
      (omega arith)

link_text :
    reset_link "https://one.example/" bobs_link
    ≡ "https://one.example/reset-password/?uid=Mg&token=abc"
unfolding reset_link
link_text = refl

send_password_reset_email-Tried_example :
    Tried slow_mails "https://one.example" "1" 3 bobs_link outbox
      (send_password_reset_email slow_mails "https://one.example" "1" bobs_link outbox)
send_password_reset_email-Tried_example =
    send_password_reset_email-Tried slow_mails "https://one.example" "1" bobs_link outbox
