-- ===== src/Tests/Sockets.antt =====
-- The theorems on WebSockets, with groups as a list of keys and channels.
use godown_rbac_system.Prelude.{
  ℕ, String, Bool, true, false, not, ◌&&◌, List, [], ◌∷◌, none, some, ◌≡◌, refl, ◌==◌, str_eq,
  eq_iff, any, select, arith, if◌then◌else◌,
}
use godown_rbac_system.Models.{Notification, signed_in}
use godown_rbac_system.World.{ok}
use godown_rbac_system.Notifications.{Push, create}
use godown_rbac_system.Notifications.Socket.{
  ChannelLayer, Consumer, handshake, connect, Hub, open_socket, group_send, opens, publishes,
  Reaches, starts, steps,
}
use godown_rbac_system.Notifications.Socket.Groups.{IsSound, Reaches-IsSound}
use godown_rbac_system.Notifications.Socket.Delivery.{group_send-create}
use godown_rbac_system.Notifications.Token.{TokenApi, raw_token, jwt_auth}
use godown_rbac_system.Notifications.Token.Erased.{erased_row, jwt_auth-anonymize}
use godown_rbac_system.Users.Erasure.{anonymize}
use godown_rbac_system.Tests.Environment.{test_env, test_world, bob}

abbrev Members : Type 0
Members = List (ℕ × String)

abbrev listed : ℕ → String → Members → Bool
listed g d = any (λ m. m.0 == g && str_eq m.1 d)

abbrev without : ℕ → String → Members → Members
without g c = select (λ m. not (g == m.0 && str_eq c m.1))

listed-without :
    (g h : ℕ) (c d : String) (l : Members)
    → listed h d (without g c l) ≡ (not (g == h && str_eq c d) && listed h d l)
listed-without g h c d [] = ground arith
listed-without g h c d ((j, e) ∷ l) =
    ground (arith, eq_iff c d, eq_iff c e, eq_iff e d, listed-without g h c d l)

abbrev channels : ChannelLayer Members
channels = record {
  is_member = listed;
  group_add = λ g c l. (g, c) ∷ l;
  group_discard = without;
  is_member-group_add = λ g h c d l. refl;
  is_member-group_discard = listed-without;
}

abbrev empty_hub : Hub channels
empty_hub = record { layer = []; sockets = λ d. none; published = [] }

abbrev bob_hub : Hub channels
bob_hub = open_socket channels "specific.1" (some (signed_in bob)) empty_hub

abbrev greeting : Push
greeting = record { group = 2; id = "id"; title = "Hello"; body = ""; created_at = "time" }

bob_listens : Reaches channels bob_hub
bob_listens = steps (starts (λ g d. refl)) (opens "specific.1" (some (signed_in bob)) refl)

bob_was_told : Reaches channels (group_send channels greeting bob_hub)
bob_was_told = steps bob_listens (publishes greeting)

Reaches-IsSound_example : IsSound channels (group_send channels greeting bob_hub)
Reaches-IsSound_example =
    Reaches-IsSound channels (group_send channels greeting bob_hub) bob_was_told

abbrev bob_socket : Consumer
bob_socket = record (handshake (some (signed_in bob))) { group_name = some 2; accepted = true }

bob_is_there : bob_hub.sockets "specific.1" ≡ some bob_socket
unfolding open_socket
bob_is_there = refl

abbrev stored_one : Notification
stored_one = record {
  id = 100;
  user = 2;
  title = "Hello";
  body = "";
  is_read = false;
  created_at = 1;
}

stored_it : (create test_env bob "Hello" "" test_world).0 ≡ ok (stored_one, greeting)
unfolding create
stored_it = refl

group_send-create_example :
    (group_send channels greeting bob_hub).sockets "specific.1"
    ≡ some (record bob_socket {
      sent = record { id = "id"; title = "Hello"; body = ""; created_at = "time" } ∷ [];
    })
group_send-create_example =
    group_send-create channels test_env bob "Hello" "" test_world stored_one greeting bob_hub
      "specific.1" bob_socket bob_listens stored_it bob_is_there

abbrev test_tokens : TokenApi
test_tokens = record {
  access_token = λ now token. if str_eq token "access-of-bob" then some 2 else none;
  query_tokens = λ query. "access-of-bob" ∷ [];
  lower = λ s. s;
}

jwt_auth-anonymize_example :
    (jwt_auth test_env test_tokens 9 "" "token=access-of-bob"
        (anonymize test_env bob test_world).1.db
      ≡ ok (signed_in (erased_row test_env bob test_world)))
    × ((erased_row test_env bob test_world).is_active ≡ false)
    × ((connect channels "specific.1"
          (handshake (some (signed_in (erased_row test_env bob test_world))))
          []).0.accepted
        ≡ true)
    × ((connect channels "specific.1"
          (handshake (some (signed_in (erased_row test_env bob test_world))))
          []).0.group_name
        ≡ some 2)
unfolding raw_token
jwt_auth-anonymize_example =
    jwt_auth-anonymize test_env bob test_world channels test_tokens 9 "" "token=access-of-bob"
      "access-of-bob" "specific.1" [] refl refl refl refl refl
