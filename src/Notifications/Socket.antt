-- ===== src/Notifications/Socket.antt =====
-- apps/notifications/consumers.py: `NotificationConsumer`, and the sockets of all users beside the
-- channel layer that carries their messages.
pub mod Groups
pub mod Delivery
use godown_rbac_system.Prelude.{
  ℕ, String, Bool, true, false, not, ◌&&◌, ◌||◌, List, [], ◌∷◌, ◌++◌, Option, none, some, ◌≡◌, ◌==◌,
  str_eq, if◌then◌else◌,
}
use godown_rbac_system.Models.{User, Caller, anonymous, signed_in}
use godown_rbac_system.Notifications.{Push}

-- The channel layer of Django Channels: which channels a group has. The group `notifications_<pk>`
-- is named by its key.
pub record ChannelLayer (Layer : Type 0) : Type 0 where
  pub is_member : ℕ → String → Layer → Bool
  pub group_add : ℕ → String → Layer → Layer
  pub group_discard : ℕ → String → Layer → Layer
  pub is_member-group_add :
      (g h : ℕ) (c d : String) (layer : Layer)
      → is_member h d (group_add g c layer) ≡ ((g == h && str_eq c d) || is_member h d layer)
  pub is_member-group_discard :
      (g h : ℕ) (c d : String) (layer : Layer)
      → is_member h d (group_discard g c layer)
        ≡ (not (g == h && str_eq c d) && is_member h d layer)

-- The JSON that a client receives.
pub record Message : Type 0 where
  pub id : String
  pub title : String
  pub body : String
  pub created_at : String

pub record Consumer : Type 0 where
  -- `scope["user"]`
  pub user : Option Caller
  -- `self.group_name`, once it is set
  pub group_name : Option ℕ
  pub accepted : Bool
  pub close_code : Option ℕ
  pub sent : List Message

abbrev pub handshake : Option Caller → Consumer
handshake user = record {
  user = user;
  group_name = none;
  accepted = false;
  close_code = none;
  sent = [];
}

abbrev refuse : Consumer → Consumer
refuse c = record c { close_code = some 4001 }

-- `notification_message`
unfoldable pub notification_message : Push → Consumer → Consumer
notification_message event c = record c {
  sent =
      c.sent
      ++ record {
        id = event.id;
        title = event.title;
        body = event.body;
        created_at = event.created_at;
      }
        ∷ [];
}

module _ {Layer : Type 0} (channels : ChannelLayer Layer) where
  abbrev connect_user : Option Caller → String → Consumer → Layer → Consumer × Layer
  connect_user none channel c layer = (refuse c, layer)
  connect_user (some anonymous) channel c layer = (refuse c, layer)
  connect_user (some (signed_in u)) channel c layer =
      (record c { group_name = some u.id; accepted = true }, channels.group_add u.id channel layer)

  unfoldable pub connect : String → Consumer → Layer → Consumer × Layer
  connect channel c layer = connect_user c.user channel c layer

  abbrev pub leave : Option ℕ → String → Layer → Layer
  leave none channel layer = layer
  leave (some group) channel layer = channels.group_discard group channel layer

  unfoldable pub disconnect : String → Consumer → Layer → Layer
  disconnect channel c layer = leave c.group_name channel layer

  -- All sockets by their channels, and what was published so far.
  pub record Hub : Type 0 where
    pub layer : Layer
    pub sockets : String → Option Consumer
    pub published : List Push

  abbrev pub put : String → Option Consumer → (String → Option Consumer) → String → Option Consumer
  put channel c sockets d = if str_eq channel d then c else sockets d

  unfoldable pub open_socket : String → Option Caller → Hub → Hub
  unfolding connect
  open_socket channel user hub =
      let (c, layer) = connect channel (handshake user) hub.layer in
      record hub { layer = layer; sockets = put channel (some c) hub.sockets }

  unfoldable pub close_socket : String → Consumer → Hub → Hub
  unfolding disconnect
  close_socket channel c hub = record hub {
    layer = disconnect channel c hub.layer;
    sockets = put channel none hub.sockets;
  }

  abbrev pub receive : Push → Bool → Option Consumer → Option Consumer
  receive event true (some c) = some (notification_message event c)
  receive event true none = none
  receive event false socket = socket

  -- `group_send`: every channel of the group gets the message.
  unfoldable pub group_send : Push → Hub → Hub
  unfolding notification_message
  group_send event hub = record hub {
    sockets = λ d. receive event (channels.is_member event.group d hub.layer) (hub.sockets d);
    published = event ∷ hub.published;
  }

  -- Clients come on channels that are not in use and go, and notifications are published.
  pub data Step (hub : Hub) : Hub → Type 0 where
    opens :
        (channel : String) (user : Option Caller)
        → hub.sockets channel ≡ none
        → Step hub (open_socket channel user hub)
    closes :
        (channel : String) (c : Consumer)
        → hub.sockets channel ≡ some c
        → Step hub (close_socket channel c hub)
    publishes : (event : Push) → Step hub (group_send event hub)

  pub data Reaches : Hub → Type 0 where
    starts :
        {layer : Layer}
        → ((g : ℕ) (d : String) → channels.is_member g d layer ≡ false)
        → Reaches (record { layer = layer; sockets = λ d. none; published = [] })
    steps : {hub after : Hub} → Reaches hub → Step hub after → Reaches after
