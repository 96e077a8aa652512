-- ===== src/Notifications.antt =====
-- services/notifications/notification_service.py and apps/notifications/views.py.
pub mod Unread
pub mod Mails
pub mod Socket
pub mod Token
use godown_rbac_system.Prelude.{
  ℕ, String, Bool, true, false, not, ◌&&◌, List, [], ◌∷◌, Option, none, some, ◌==◌, if◌then◌else◌,
}
use godown_rbac_system.Orm.{Got, found, missing, several, get}
use godown_rbac_system.Models.{User, Caller, anonymous, signed_in, Notification}
use godown_rbac_system.World.{
  World, Db, Env, Action, Exc, Result, ok, err, pure, raise, gets, reads, or_raise, modify,
  draw_uuid, read_clock, integrity_error, not_authenticated, multiple_objects, validation,
  notification_missing, ◌>>=◌, ◌>>◌,
}
use godown_rbac_system.Http.{Request, Response, success, failure}
use godown_rbac_system.Common.Gate.{check_permissions, is_authenticated}

-- The message for the user's group that `create` hands to the channel layer, if there is one; that
-- a failure of the channel layer is only logged.
pub record Push : Type 0 where
  pub group : ℕ
  pub id : String
  pub title : String
  pub body : String
  pub created_at : String

abbrev pub is_own : User → Notification → Bool
is_own user n = n.user == user.id

abbrev pub is_unread : User → Notification → Bool
is_unread user n = n.user == user.id && not n.is_read

-- The lookup `pk=notification_id, user=user`.
abbrev pub is_entry : ℕ → User → Notification → Bool
is_entry k user n = n.id == k && n.user == user.id

module _ (env : Env) where
  unfoldable pub create : User → String → String → Action (Notification × Push)
  create user title body = do
    id ← draw_uuid env
    created_at ← read_clock env
    let n : Notification = record {
      id = id;
      user = user.id;
      title = title;
      body = body;
      is_read = false;
      created_at = created_at;
    }
    rows ← reads (λ db. or_raise integrity_error (env.notifications.create n db.notifications))
    modify (λ db. record db { notifications = rows })
    pure (
      n,
      record {
        group = user.id;
        id = env.show_id id;
        title = title;
        body = body;
        created_at = env.show_time created_at;
      },
    )

  -- `save(update_fields=["is_read"])`
  abbrev save_read : Notification → Action Notification
  save_read n = do
    modify (λ db. record db {
      notifications =
          env.notifications.update (λ m. m.id == n.id) (λ m. record m { is_read = true })
            db.notifications;
    })
    pure (record n { is_read = true })

  abbrev read_entry : ℕ → Got Notification → Action Notification
  read_entry k (found n) = if n.is_read then pure n else save_read n
  read_entry k missing = raise (validation (notification_missing k))
  read_entry k several = raise multiple_objects

  unfoldable pub mark_read : ℕ → User → Action Notification
  mark_read k user =
      reads (λ db. read_entry k (get env.notifications (is_entry k user) db.notifications))

  unfoldable pub list_unread : User → Db → List Notification
  list_unread user db = env.notifications.filter (is_unread user) db.notifications

  unfoldable pub list_all : User → Db → List Notification
  list_all user db = env.notifications.filter (is_own user) db.notifications

  abbrev lists : Caller → Bool → Db → List Notification
  lists anonymous unread_only db = []
  lists (signed_in user) true db = list_unread user db
  lists (signed_in user) false db = list_all user db

  -- `NotificationListView.get`, before pagination
  unfoldable pub list_notifications : Request → Bool → Action (Response (List Notification))
  unfolding check_permissions list_unread list_all
  list_notifications request unread_only = do
    check_permissions request.user (is_authenticated request.user ∷ [])
    gets (λ w. success 200 (lists request.user unread_only w.db))

  abbrev or_404_response : Result Notification × World → Result (Response Notification) × World
  or_404_response (ok n, w) = (ok (success 200 n), w)
  or_404_response (err (validation message), w) = (ok (failure 404), w)
  or_404_response (err e, w) = (err e, w)

  abbrev mark_for : Caller → ℕ → Action (Response Notification)
  mark_for anonymous k w = (err not_authenticated, w)
  mark_for (signed_in user) k w = or_404_response (mark_read k user w)

  -- `MarkNotificationReadView.patch`
  unfoldable pub patch_read : Request → ℕ → Action (Response Notification)
  unfolding check_permissions
  patch_read request k = do
    check_permissions request.user (is_authenticated request.user ∷ [])
    mark_for request.user k
