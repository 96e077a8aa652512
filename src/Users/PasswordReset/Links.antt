-- ===== src/Users/PasswordReset/Links.antt =====
-- What the two views do together: the request tells nothing of who is registered, and the link
-- that is mailed works.
use godown_rbac_system.Prelude.{
  suc, ◌+◌, ◌≤◌, String, Bool, true, false, [], ◌∷◌, Option, none, some, ◌≡◌, ◌≢◌, refl, sym, ap,
  ◌∙◌, ◌==◌, select, any, nonempty, nonempty-select, str_eq, eq_iff, List,
}
use godown_rbac_system.Orm.{found, missing, several, one, get}
use godown_rbac_system.Orm.Laws.{get_lem, select_hit, any_of_select-nil}
use godown_rbac_system.Models.{User, AuditAction}
use godown_rbac_system.World.{World, Db, Env, Result, ok, err, validation, spent_link}
use godown_rbac_system.Http.{Request, success, failure}
use godown_rbac_system.Text.{strip}
use godown_rbac_system.Audit.Service.{log}
use godown_rbac_system.Audit.Service.Keeps.{log_keeps}
use godown_rbac_system.Users.PasswordReset.{ResetApi, ResetMail, mail_name, confirm_reset}
use godown_rbac_system.Users.PasswordReset.SingleUse.{confirm_reset_once}
use godown_rbac_system.Users.PasswordReset.Views.{post_reset, by_validation, post_confirm}

pub confirmed_response :
    (out : Result (Unit {0}) × World)
    → out.0 ≡ ok tt
    → ((by_validation out).0 ≡ ok (success 200 tt)) × ((by_validation out).1 ≡ out.1)
confirmed_response (ok done, w) h = (refl, refl)
confirmed_response (err e, w) h = (cc, cc)

pub refused_response :
    (out : Result (Unit {0}) × World)
    → out.0 ≡ err (validation spent_link)
    → (by_validation out).0 ≡ ok (failure 400)
refused_response (ok done, w) h = cc
refused_response (err e, w) h = rw h refl

module _ (env : Env) (api : ResetApi) (request : Request) (email : String) (w : World) where
  abbrev pub is_named : User → Bool
  is_named u = str_eq u.email (api.lower (strip email))

  abbrev pub link_of : User → ResetMail
  link_of u = record {
    recipient_email = u.email;
    user_name = mail_name u;
    uid = api.encode_uid u.id;
    token = api.make_token (env.now w.ticks) u;
  }

  -- The request changes the audit log only.
  abbrev pub OnlyLogged : Db → Type 0
  OnlyLogged db = record db { audit_logs = w.db.audit_logs } ≡ w.db

  logged :
      OnlyLogged
        (log env AuditAction.password_reset_requested
          (some request)
          none
          none
          ""
          ""
          (("email", email) ∷ [])
          (record w { ticks = suc w.ticks })).1.db
  logged =
      log_keeps env AuditAction.password_reset_requested (some request) none none "" ""
        (("email", email) ∷ []) (record w { ticks = suc w.ticks }) OnlyLogged (λ db rows h. h) refl

  mailed :
      (u : User)
      → one (select is_named w.db.users) ≡ found u
      → ((post_reset env api request (some email) w).0 ≡ ok (success 200 tt, some (link_of u)))
        × OnlyLogged (post_reset env api request (some email) w).1.db
  unfolding post_reset
  mailed u h = rw (get_lem env.users is_named w.db.users, h) (refl, logged)

  not_mailed :
      one (select is_named w.db.users) ≡ missing
      → ((post_reset env api request (some email) w).0 ≡ ok (success 200 tt, none))
        × OnlyLogged (post_reset env api request (some email) w).1.db
  unfolding post_reset
  not_mailed h = rw (get_lem env.users is_named w.db.users, h) (refl, logged)

  -- The mail that is queued goes to the address of a user who has the one that was given.
  abbrev pub GoesTo : Option ResetMail → Type 0
  GoesTo none = any is_named w.db.users ≡ false
  GoesTo (some mail) =
      (any is_named w.db.users ≡ true) × (mail.recipient_email ≡ api.lower (strip email))

  by_rows :
      (rows : List User)
      → select is_named w.db.users ≡ rows
      → one rows ≢ several
      → (mail : Option ResetMail) × ((post_reset env api request (some email) w).0
          ≡ ok (success 200 tt, mail))
        × GoesTo mail
        × OnlyLogged (post_reset env api request (some email) w).1.db
  by_rows [] e h =
      let (answer, kept) = not_mailed (ap one e) in
      (none, answer, any_of_select-nil is_named w.db.users e, kept)
  by_rows (u ∷ []) e h =
      let (answer, kept) = mailed u (ap one e) in
      let hit = select_hit is_named w.db.users u [] e in
      (
        some (link_of u),
        answer,
        (
          sym (nonempty-select is_named w.db.users) ∙ ap nonempty e,
          (eq_iff u.email (api.lower (strip email))).0 hit,
        ),
        kept,
      )
  by_rows (u ∷ v ∷ rows) e h = elim (h refl) [ ]

  -- If at most one user has an address, a request for it is answered with 200 and the same words,
  -- whether or not somebody has it; a mail is queued exactly if somebody does, to this address, and
  -- no table but the audit log changes.
  pub post_reset_uniform :
      get env.users is_named w.db.users ≢ several
      → (mail : Option ResetMail) × ((post_reset env api request (some email) w).0
          ≡ ok (success 200 tt, mail))
        × GoesTo mail
        × OnlyLogged (post_reset env api request (some email) w).1.db
  post_reset_uniform h =
      by_rows (select is_named w.db.users) refl (rw (get_lem env.users is_named w.db.users) at h)

  -- If exactly one user has the address, the link that a request mails, opened before the
  -- timeout while the user's row is as it was, with a password that the validators accept and whose
  -- hash is not the stored one, is answered with 200, and the row has this hash; after that the
  -- link is answered with 400, whatever the password.
  pub post_confirm-post_reset :
      (u : User) (v : World) (password : String)
      → select is_named w.db.users ≡ u ∷ []
      → select (λ x. x.id == u.id) v.db.users ≡ u ∷ []
      → env.now w.ticks ≤ env.now v.ticks
      → env.now v.ticks ≤ env.now w.ticks + api.password_reset_timeout
      → api.is_weak u password ≡ false
      → api.make_password (env.now (suc v.ticks)) password ≢ u.password
      → (mail : ResetMail) × ((post_reset env api request (some email) w).0
          ≡ ok (success 200 tt, some mail))
        × (let open_link = λ (p : String).
              post_confirm env api
                (some (record { uid = mail.uid; token = mail.token; new_password = p })) in
            ((open_link password v).0 ≡ ok (success 200 tt))
            × (select (λ x. x.id == u.id) (open_link password v).1.db.users
                ≡ record u { password = api.make_password (env.now (suc v.ticks)) password } ∷ [])
            × ((other : String) → (open_link other (open_link password v).1).0 ≡ ok (failure 400)))
  unfolding post_confirm
  post_confirm-post_reset u v password named row early late strong fresh =
      let uid = api.encode_uid u.id in
      let token = api.make_token (env.now w.ticks) u in
      let (done, changed, spent) =
        confirm_reset_once env api u uid token password v (api.decode_uid-encode_uid u.id) row
          (api.check_token-make_token (env.now w.ticks) (env.now v.ticks) u early late) strong
          fresh in
      let first = confirm_reset env api uid token password v in
      let (answer, kept) = confirmed_response first done in
      (
        link_of u,
        (mailed u (ap one named)).0,
        (
          answer,
          rw kept changed,
          (λ other.
              rw kept
                (refused_response (confirm_reset env api uid token other first.1) (spent other).0)),
        ),
      )
