-- ===== src/Notifications/Socket/Groups.antt =====
-- Groups list exactly the open sockets that joined them, and no socket is sent another user's
-- message.
use godown_rbac_system.Prelude.{
  ℕ, String, Bool, true, false, List, [], ◌∷◌, ◌++◌, Option, none, some, ◌≡◌, refl, sym, ap, ◌∙◌,
  ◌⊎◌, inl, inr, ◌==◌, ==_iff, str_eq, eq_iff, is_some_of, All, Bool-cases, arith,
}
use godown_rbac_system.Models.{Caller, anonymous, signed_in}
use godown_rbac_system.Notifications.{Push}
use godown_rbac_system.Notifications.Socket.{
  ChannelLayer, Message, Consumer, notification_message, Hub, disconnect, open_socket, close_socket,
  group_send, leave, put, receive, Step, opens, closes, publishes, Reaches, starts, steps,
}

abbrev pub key_of : Option Caller → Option ℕ
key_of none = none
key_of (some anonymous) = none
key_of (some (signed_in u)) = some u.id

abbrev pub in_group : ℕ → Option Consumer → Bool
in_group g none = false
in_group g (some c) = is_some_of c.group_name g

abbrev pub Among : Push → List Push → Type 0
Among e [] = ⊥
Among e (x ∷ xs) = (e ≡ x) ⊎ Among e xs

abbrev pub message_of : Push → Message
message_of e = record { id = e.id; title = e.title; body = e.body; created_at = e.created_at }

-- The message was published for the user.
abbrev pub IsFor : Option Caller → List Push → Message → Type 0
IsFor user published m =
    (e : Push) × Among e published × (key_of user ≡ some e.group) × (m ≡ message_of e)

-- A socket has joined its user's group and no other, and what it was sent was for its user.
abbrev pub IsOwn : List Push → Option Consumer → Type 0
IsOwn published none = Unit
IsOwn published (some c) = (c.group_name ≡ key_of c.user) × All (IsFor c.user published) c.sent

module _ {Layer : Type 0} (channels : ChannelLayer Layer) where
  -- Groups list exactly the open sockets that joined them.
  pub record IsSound (hub : Hub channels) : Type 0 where
    pub joined :
        (g : ℕ) (d : String) → channels.is_member g d hub.layer ≡ in_group g (hub.sockets d)
    pub own : (d : String) → IsOwn hub.published (hub.sockets d)

  put-All :
      (P : Option Consumer → Type 0) (channel : String) (c : Option Consumer)
      (sockets : String → Option Consumer)
      → P c
      → ((d : String) → P (sockets d))
      → (d : String) → P (put channels channel c sockets d)
  put-All P channel c sockets new old d = elim (Bool-cases (str_eq channel d)) [
    | inl same ↦ rw same new
    | inr other ↦ rw other (old d)
  ]

  module _ (hub : Hub channels) (sound : IsSound hub) (channel : String) where
    absent :
        hub.sockets channel ≡ none
        → (g : ℕ) (d : String) → str_eq channel d ≡ true
        → channels.is_member g d hub.layer ≡ false
    absent free g d same = rw (← (eq_iff channel d).0 same, sound.joined g channel, free) refl

    refused_joined :
        (c : Consumer)
        → c.group_name ≡ none
        → hub.sockets channel ≡ none
        → (g : ℕ) (d : String)
        → channels.is_member g d hub.layer
          ≡ in_group g (put channels channel (some c) hub.sockets d)
    refused_joined c out free g d = elim (Bool-cases (str_eq channel d)) [
      | inl same ↦ rw (same, absent free g d same, out) refl
      | inr other ↦ rw other (sound.joined g d)
    ]

    accepted_joined :
        (c : Consumer) (k : ℕ)
        → c.group_name ≡ some k
        → hub.sockets channel ≡ none
        → (g : ℕ) (d : String)
        → channels.is_member g d (channels.group_add k channel hub.layer)
          ≡ in_group g (put channels channel (some c) hub.sockets d)
    accepted_joined c k joined free g d = elim (Bool-cases (str_eq channel d)) [
      | inl same ↦
          rw
            (
              channels.is_member-group_add k g channel d hub.layer,
              same,
              absent free g d same,
              joined,
            )
            (ground arith)
      | inr other ↦
          rw (channels.is_member-group_add k g channel d hub.layer, other, sound.joined g d)
            (ground arith)
    ]

    open_socket-IsSound :
        (user : Option Caller)
        → hub.sockets channel ≡ none
        → IsSound (open_socket channels channel user hub)
    unfolding open_socket
    open_socket-IsSound none free = record {
      joined = refused_joined _ refl free;
      own = put-All (IsOwn hub.published) channel _ hub.sockets (refl, tt) sound.own;
    }
    open_socket-IsSound (some anonymous) free = record {
      joined = refused_joined _ refl free;
      own = put-All (IsOwn hub.published) channel _ hub.sockets (refl, tt) sound.own;
    }
    open_socket-IsSound (some (signed_in u)) free = record {
      joined = accepted_joined _ u.id refl free;
      own = put-All (IsOwn hub.published) channel _ hub.sockets (refl, tt) sound.own;
    }

    left_joined :
        (group : Option ℕ)
        → ((g : ℕ) → channels.is_member g channel hub.layer ≡ is_some_of group g)
        → (g : ℕ) (d : String)
        → channels.is_member g d (leave channels group channel hub.layer)
          ≡ in_group g (put channels channel none hub.sockets d)
    left_joined none groups g d = elim (Bool-cases (str_eq channel d)) [
      | inl same ↦ rw same (rw (← (eq_iff channel d).0 same) (groups g))
      | inr other ↦ rw other (sound.joined g d)
    ]
    left_joined (some k) groups g d = elim (Bool-cases (str_eq channel d)) [
      | inl same ↦
          let here = groups g in
          let there : channels.is_member g d hub.layer ≡ (k == g) =
            rw (← (eq_iff channel d).0 same) here in
          rw (channels.is_member-group_discard k g channel d hub.layer, same, there) (ground arith)
      | inr other ↦
          rw (channels.is_member-group_discard k g channel d hub.layer, other, sound.joined g d)
            (ground arith)
    ]

    closed_joined :
        (c : Consumer)
        → hub.sockets channel ≡ some c
        → (g : ℕ) (d : String)
        → channels.is_member g d (disconnect channels channel c hub.layer)
          ≡ in_group g (put channels channel none hub.sockets d)
    unfolding disconnect
    closed_joined c at_it g d =
        left_joined c.group_name (λ k. sound.joined k channel ∙ ap (in_group k) at_it) g d

    close_socket-IsSound :
        (c : Consumer)
        → hub.sockets channel ≡ some c
        → IsSound (close_socket channels channel c hub)
    unfolding close_socket
    close_socket-IsSound c at_it = record {
      joined = closed_joined c at_it;
      own = put-All (IsOwn hub.published) channel none hub.sockets tt sound.own;
    }

  All-published :
      (e : Push) (published : List Push) (user : Option Caller) (sent : List Message)
      → All (IsFor user published) sent
      → All (IsFor user (e ∷ published)) sent
  All-published e published user [] h = tt
  All-published e published user (m ∷ sent) h =
      ((h.0.0, inr h.0.1, h.0.2, h.0.3), All-published e published user sent h.1)

  All-snoc :
      (P : Message → Type 0) (ms : List Message) (m : Message)
      → All P ms
      → P m
      → All P (ms ++ m ∷ [])
  All-snoc P [] m h p = (p, tt)
  All-snoc P (x ∷ ms) m h p = (h.0, All-snoc P ms m h.1 p)

  pub some_of : (o : Option ℕ) (k : ℕ) → is_some_of o k ≡ true → o ≡ some k
  some_of none k h = cc
  some_of (some j) k h = ap some ((==_iff j k).0 h)

  same_group :
      (event : Push) (g : ℕ) (b : Bool) (socket : Option Consumer)
      → in_group g socket ≡ in_group g (receive channels event b socket)
  unfolding notification_message
  same_group event g true none = refl
  same_group event g true (some c) = refl
  same_group event g false socket = refl

  received-IsOwn :
      (event : Push) (published : List Push) (socket : Option Consumer)
      → IsOwn published socket
      → IsOwn (event ∷ published) (receive channels event (in_group event.group socket) socket)
  unfolding notification_message
  received-IsOwn event published none own = tt
  received-IsOwn event published (some c) own =
      elim (Bool-cases (is_some_of c.group_name event.group)) [
        | inl member ↦ rw member (
          own.0,
          All-snoc (IsFor c.user (event ∷ published)) c.sent (message_of event)
              (All-published event published c.user c.sent own.1)
              (event, inl refl, sym own.0 ∙ some_of c.group_name event.group member, refl),
        )
        | inr other ↦ rw other (own.0, All-published event published c.user c.sent own.1)
      ]

  group_send-IsSound :
      (event : Push) (hub : Hub channels) → IsSound hub → IsSound (group_send channels event hub)
  unfolding group_send
  group_send-IsSound event hub sound = record {
    joined = λ g d.
        sound.joined g d
        ∙ same_group event g (channels.is_member event.group d hub.layer) (hub.sockets d);
    own = λ d.
        rw (sound.joined event.group d)
          (received-IsOwn event hub.published (hub.sockets d) (sound.own d));
  }

  Step-IsSound : {hub after : Hub channels} → Step channels hub after → IsSound hub → IsSound after
  Step-IsSound {hub} (opens channel user free) sound =
      open_socket-IsSound hub sound channel user free
  Step-IsSound {hub} (closes channel c at_it) sound = close_socket-IsSound hub sound channel c at_it
  Step-IsSound {hub} (publishes event) sound = group_send-IsSound event hub sound

  -- However clients come and go and notifications are published, every message that an open socket
  -- was sent was published for the socket's user, who is signed in, and nobody is in a group of
  -- which no open socket is.
  pub Reaches-IsSound : (hub : Hub channels) → Reaches channels hub → IsSound hub
  Reaches-IsSound hub (starts empty) = record { joined = empty; own = λ d. tt }
  Reaches-IsSound hub (steps before step) = Step-IsSound step (Reaches-IsSound _ before)
