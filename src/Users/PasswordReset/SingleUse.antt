-- ===== src/Users/PasswordReset/SingleUse.antt =====
-- A link for a new password works once.
use godown_rbac_system.Prelude.{
  suc, String, true, false, [], ◌∷◌, some, ◌≡◌, ◌≢◌, refl, ap, ◌∙◌, map, ◌==◌, select,
  if◌then◌else◌, ==_refl,
}
use godown_rbac_system.Orm.Laws.{select-update}
use godown_rbac_system.Models.{User}
use godown_rbac_system.World.{World, Env, ok, err, validation, spent_link}
use godown_rbac_system.Users.PasswordReset.{ResetApi, confirm_reset}

module _ (env : Env) (api : ResetApi) (u : User) (uid token password : String) (w : World)
    (decoded : api.decode_uid uid ≡ some u.id)
    (listed : select (λ v. v.id == u.id) w.db.users ≡ u ∷ [])
    (valid : api.check_token (env.now w.ticks) u token ≡ true)
    (strong : api.is_weak u password ≡ false) where
  abbrev hashed : String
  hashed = api.make_password (env.now (suc w.ticks)) password

  abbrev changed : User
  changed = record u { password = hashed }

  row_changed :
      select
        (λ v. v.id == u.id)
        (map (λ v. if v.id == u.id then record v { password = hashed } else v) w.db.users)
      ≡ changed ∷ []
  row_changed =
      select-update (λ v. v.id == u.id) (λ v. v.id == u.id) (λ v. record v { password = hashed })
        w.db.users (λ v. refl)
      ∙ ap (map (λ v. if v.id == u.id then record v { password = hashed } else v)) listed
      ∙ rw (==_refl u.id) refl

  -- A valid link with a password that the validators accept sets the hash of this password.
  confirmed :
      ((confirm_reset env api uid token password w).0 ≡ ok tt)
      × (select (λ v. v.id == u.id) (confirm_reset env api uid token password w).1.db.users
          ≡ changed ∷ [])
  unfolding confirm_reset
  confirmed =
      rw
        (
          decoded,
          env.users.filter_lem (λ v. v.id == u.id) w.db.users,
          listed,
          valid,
          strong,
          env.users.update_lem (λ v. v.id == u.id) (λ v. record v { password = hashed }) w.db.users,
        )
        (refl, row_changed)

  refused :
      (v : World) (other : String)
      → select (λ x. x.id == u.id) v.db.users ≡ changed ∷ []
      → hashed ≢ u.password
      → ((confirm_reset env api uid token other v).0 ≡ err (validation spent_link))
        × ((confirm_reset env api uid token other v).1.db ≡ v.db)
  unfolding confirm_reset
  refused v other now_listed fresh =
      rw
        (
          decoded,
          env.users.filter_lem (λ x. x.id == u.id) v.db.users,
          now_listed,
          api.check_token_spent (env.now w.ticks) (env.now v.ticks) u token hashed valid fresh,
        )
        (refl, refl)

  -- If the link names the user, its token is valid, the validators accept the password and its hash
  -- is not the stored one, the reset succeeds, the user's row then has this hash, and a second use of
  -- the link, whatever the password, is refused and changes no table.
  pub confirm_reset_once :
      hashed ≢ u.password
      → ((confirm_reset env api uid token password w).0 ≡ ok tt)
        × (select (λ v. v.id == u.id) (confirm_reset env api uid token password w).1.db.users
            ≡ changed ∷ [])
        × ((other : String)
            → ((confirm_reset env api uid token other
                  (confirm_reset env api uid token password w).1).0
                ≡ err (validation spent_link))
              × ((confirm_reset env api uid token other
                    (confirm_reset env api uid token password w).1).1.db
                  ≡ (confirm_reset env api uid token password w).1.db))
  confirm_reset_once fresh = (
    confirmed.0,
    confirmed.1,
    (λ other. refused (confirm_reset env api uid token password w).1 other confirmed.1 fresh),
  )
