-- ===== src/Notifications/Socket/Delivery.antt =====
-- Which sockets a notification reaches.
use godown_rbac_system.Prelude.{
  ℕ, suc, String, Bool, true, false, [], ◌∷◌, ◌++◌, Option, some, ◌≡◌, refl, sym, ap, ◌∙◌, inl, inr,
  if◌then◌else◌, is_some_of, Option-cases,
}
use godown_rbac_system.Models.{Notification, User, Caller}
use godown_rbac_system.World.{World, Env, ok, err, integrity_error}
use godown_rbac_system.Notifications.{Push, create}
use godown_rbac_system.Notifications.Socket.Groups.{key_of, in_group, Reaches-IsSound}
use godown_rbac_system.Notifications.Socket.{
  ChannelLayer, Consumer, notification_message, Hub, group_send, receive, Reaches,
}

module _ (env : Env) (user : User) where
  abbrev push_of : Notification → Push
  push_of n = record {
    group = user.id;
    id = env.show_id n.id;
    title = n.title;
    body = n.body;
    created_at = env.show_time n.created_at;
  }

  create-push_of :
      (title body : String) (w : World) (n : Notification) (event : Push)
      → (create env user title body w).0 ≡ ok (n, event)
      → event ≡ push_of n
  unfolding create
  create-push_of title body w n event done =
      let m : Notification = record {
        id = env.uuid4 w.ticks;
        user = user.id;
        title = title;
        body = body;
        is_read = false;
        created_at = env.now (suc w.ticks);
      } in
      elim (Option-cases (env.notifications.create m w.db.notifications)) [
        | inl refused ↦ let bad : err integrity_error ≡ ok (n, event) = rw refused at done in cc
        | inr (rows, stored) ↦
            let out : ok (m, push_of m) ≡ ok (n, event) = rw stored at done in
            let same : m ≡ n = cc in
            let pair : (m, push_of m) ≡ (n, event) = cc in
            rw (← same) (sym (ap (λ (x : Notification × Push). x.1) pair))
      ]

module _ {Layer : Type 0} (channels : ChannelLayer Layer) where
  receive_lem :
      (event : Push) (b : Bool) (c : Consumer)
      → receive channels event b (some c) ≡ some (if b then notification_message event c else c)
  receive_lem event true c = refl
  receive_lem event false c = refl

  abbrev pub of_user : User → Option Caller → Bool
  of_user user caller = is_some_of (key_of caller) user.id

  -- Once any clients have come and gone, a notification that the service creates for a user is sent,
  -- as it is stored, to all of the user's open sockets and to no other.
  pub group_send-create :
      (env : Env) (user : User) (title body : String) (w : World) (n : Notification) (event : Push)
      (hub : Hub channels) (d : String) (c : Consumer)
      → Reaches channels hub
      → (create env user title body w).0 ≡ ok (n, event)
      → hub.sockets d ≡ some c
      → (group_send channels event hub).sockets d
        ≡ some (
            if of_user user c.user
            then record c {
              sent =
                  c.sent
                  ++ record {
                    id = env.show_id n.id;
                    title = n.title;
                    body = n.body;
                    created_at = env.show_time n.created_at;
                  }
                    ∷ [];
            }
            else c)
  unfolding group_send notification_message
  group_send-create env user title body w n event hub d c reached done at_it =
      let sound = Reaches-IsSound channels hub reached in
      let event_is = create-push_of env user title body w n event done in
      let member =
        sound.joined event.group d
        ∙ ap (in_group event.group) at_it
        ∙ ap (λ (o : Option ℕ). is_some_of o event.group) (rw at_it at (sound.own d)).0 in
      rw (at_it)
        (rw member (rw event_is (receive_lem (push_of env user n) (of_user user c.user) c)))
