-- ===== src/Users/PasswordReset/Views.antt =====
-- apps/authentication/views.py: the views that request and confirm a new password.
use godown_rbac_system.Prelude.{String, [], ◌∷◌, Option, none, some}
use godown_rbac_system.Models.{AuditAction}
use godown_rbac_system.World.{World, Env, Action, Result, ok, err, pure, validation, ◌>>=◌, ◌>>◌}
use godown_rbac_system.Http.{Request, Response, success, failure}
use godown_rbac_system.Audit.Service.{log}
use godown_rbac_system.Rbac.Views.{validated}
use godown_rbac_system.Users.PasswordReset.{ResetApi, ResetMail, request_reset, confirm_reset}

pub record ConfirmReset : Type 0 where
  pub uid : String
  pub token : String
  pub new_password : String

abbrev pub by_validation : Result (Unit {0}) × World → Result (Response (Unit {0})) × World
by_validation (ok done, w) = (ok (success 200 tt), w)
by_validation (err (validation message), w) = (ok (failure 400), w)
by_validation (err e, w) = (err e, w)

module _ (env : Env) (api : ResetApi) where
  -- `PasswordResetRequestView.post`: the response, which says the same of every address, and the
  -- message that is queued beside it.
  unfoldable pub post_reset :
      Request → Option String → Action (Response (Unit {0}) × Option ResetMail)
  unfolding request_reset log
  post_reset request body = do
    email ← validated "email" body
    mail ← request_reset env api email
    log env AuditAction.password_reset_requested (some request) none none "" ""
        (("email", email) ∷ [])
    pure (success 200 tt, mail)

  -- `PasswordResetConfirmView.post`
  unfoldable pub post_confirm : Option ConfirmReset → Action (Response (Unit {0}))
  unfolding confirm_reset
  post_confirm body = do
    fields ← validated "uid" body
    λ w. by_validation (confirm_reset env api fields.uid fields.token fields.new_password w)
