-- ===== src/Notifications/Token/Erased.antt =====
-- An access token outlives the erasure of its user.
use godown_rbac_system.Prelude.{
  ℕ, String, true, false, [], ◌∷◌, some, ◌≡◌, refl, ap, ◌∙◌, map, ◌==◌, ==_refl, select, str_eq,
  all_distinct, if◌then◌else◌,
}
use godown_rbac_system.Orm.Laws.{get_lem, select-update}
use godown_rbac_system.Models.{User, signed_in, user_clash}
use godown_rbac_system.World.{World, Env, ok}
use godown_rbac_system.Users.Erasure.{set_identity, anonymize}
use godown_rbac_system.Users.Erasure.Laws.{erased_identity, renamed}
use godown_rbac_system.Notifications.Token.{TokenApi, raw_token, jwt_auth}
use godown_rbac_system.Notifications.Socket.{ChannelLayer, handshake, connect}

module _ (env : Env) (user : User) (w : World) where
  abbrev pub erased_row : User
  erased_row = set_identity (erased_identity env user w) user

  anonymize-users :
      all_distinct user_clash (renamed env user w) ≡ true
      → (anonymize env user w).1.db.users ≡ renamed env user w
  unfolding anonymize
  anonymize-users free =
      rw
        (
          env.users.update_unique_lem (λ v. v.id == user.id)
              (set_identity (erased_identity env user w)) w.db.users,
          free,
        )
        refl

  row_erased :
      select (λ v. v.id == user.id) w.db.users ≡ user ∷ []
      → select (λ v. v.id == user.id) (renamed env user w) ≡ erased_row ∷ []
  row_erased row =
      select-update (λ v. v.id == user.id) (λ v. v.id == user.id)
        (set_identity (erased_identity env user w)) w.db.users (λ v. refl)
      ∙ ap (map (λ v. if v.id == user.id then set_identity (erased_identity env user w) v else v))
          row
      ∙ rw (==_refl user.id) refl

  -- If the placeholder name is nobody's, then after a user was anonymized, an access token that was
  -- given to the user and is not yet too old still opens a WebSocket, as a user who is not active,
  -- and joins it to the user's group.
  pub jwt_auth-anonymize :
      {Layer : Type 0} (channels : ChannelLayer Layer) (api : TokenApi) (now : ℕ)
      (auth_header query_string token channel : String) (layer : Layer)
      → all_distinct user_clash (renamed env user w) ≡ true
      → select (λ v. v.id == user.id) w.db.users ≡ user ∷ []
      → raw_token env api auth_header query_string ≡ some token
      → str_eq token "" ≡ false
      → api.access_token now token ≡ some user.id
      → (jwt_auth env api now auth_header query_string (anonymize env user w).1.db
          ≡ ok (signed_in erased_row))
        × (erased_row.is_active ≡ false)
        × ((connect channels channel (handshake (some (signed_in erased_row))) layer).0.accepted
            ≡ true)
        × ((connect channels channel (handshake (some (signed_in erased_row))) layer).0.group_name
            ≡ some user.id)
  unfolding jwt_auth connect
  jwt_auth-anonymize channels api now auth_header query_string token channel layer free row given
        full valid =
      let users = anonymize-users free in
      (
        rw
            (
              given,
              full,
              valid,
              get_lem env.users (λ v. v.id == user.id) (anonymize env user w).1.db.users,
              users,
              row_erased row,
            )
            refl,
        refl,
        refl,
        refl,
      )
