-- ===== src/Tests/Servers.antt =====
-- A run of the whole server at the small database.
use chatroom_server.Base.{
  ℕ, ◌≡◌, refl, String, true, none, some, List, [], ◌∷◌, if◌then◌else◌, arith,
}
use chatroom_server.Base.Sort.{sort_by}
use chatroom_server.Auth.Token.{Claims, Jwt, bearer, parse_token, middleware}
use chatroom_server.Message.Request.{SendRequest, with_room, refusal}
use chatroom_server.Message.Handler.{
  can_post, group_member_uids, resolve_recipients, broadcast, track_activity, post_message, send,
}
use chatroom_server.Message.Handler.Send.{may_send}
use chatroom_server.Message.Store as Messages
use chatroom_server.Room.Recipients.{recipients}
use chatroom_server.Room.Store as Rooms
use chatroom_server.Room.Handler
use chatroom_server.Room.Requests as Requests
use chatroom_server.Room.Ownership.{IsOwnedBy}
use chatroom_server.Coherence.Invalidation.{IsUp}
use chatroom_server.Ws.Hub.Delivery.{deliveries}
use chatroom_server.Room.Model.{Room}
use chatroom_server.World.{serve}
use chatroom_server.Ws.Hub.{register, unregister, send_to_users, broadcast_all}
use chatroom_server.Ws.Handler.{handshake, leave}
use chatroom_server.Server.Requests.{Parts, Request, Protected, MessageRequest}
use chatroom_server.Server.Sound.{IsSound}
use chatroom_server.Server.Run.{Event, request, connect, hang_up, answer, run}
use chatroom_server.Server.Run.Invariants.{run-send_authorised}
use chatroom_server.Server.Run.Private.{IsApart, run-send_private}
use chatroom_server.Server.Run.Owner.{run_server-IsOwnedBy}
use chatroom_server.Tests.Data.{memory_cache, memory_cache-IsCache, world, encode, room_row}
use chatroom_server.Tests.Accounts.{bcrypt, collate}
use text.Mathlib.Text.{◌==◌}
use Prim.Native.String.{◌++◌}

program : Unit {0}
unfolding send with_room refusal can_post group_member_uids resolve_recipients recipients broadcast
    track_activity post_message register unregister send_to_users broadcast_all Rooms.get_room
    Rooms.get_member Rooms.get_friend_by_room_id Rooms.list_members Rooms.touch_room
    Rooms.bump_unread Rooms.bump_all Rooms.reset_unread Rooms.remove_member Messages.insert sort_by
    parse_token middleware Handler.exit_group handshake leave
program = tt

abbrev claims_of : ℕ → Claims
claims_of uid = record { uid = uid; issued_at = 0; expires_at = 3600 }

-- The tokens of users 1 and 3.
abbrev two_users : Jwt
two_users = record {
  sign = λ c secret. none;
  parse = λ t secret now.
      if t == "one" then some (claims_of 1) else if t == "three" then some (claims_of 3) else none;
}

abbrev parts : Parts
parts = record {
  encode = encode;
  sign = λ c secret. none;
  collate = collate;
  bcrypt = bcrypt;
  jwt = two_users;
  secret = "key";
  ttl = 3600;
  calls = record { api_key = ""; api_secret = ""; public_url = "" };
}

abbrev hello : SendRequest
hello = record { room_id = 1; content = "hello"; type = 1; reply_msg_id = 0; extra = none }

abbrev says_hello : String → Request
says_hello header = Request.protected header (Protected.messages (MessageRequest.send (some hello)))

-- User 1 writes, user 3 connects and leaves the group, and the connection ends.
abbrev events : List Event
events =
    request 60 (says_hello "Bearer one")
    ∷ (connect "three" 61 (some 31)
        ∷ (request 62
              (Request.protected "Bearer three" (Protected.rooms (Requests.exit_group (some 1))))
            ∷ (hang_up 3 31 ∷ [])))

-- The cached list of the members does not let user 3 write any more.
gone : (answer parts 70 (says_hello "Bearer three") (run parts events world)).0.status ≡ 403
unfolding program
gone = refl

no_token : (answer parts 70 (says_hello "one") world).0.status ≡ 401
unfolding program
no_token = refl

pub world-IsSound : IsSound memory_cache world
world-IsSound = record {
  coherent = record { known = λ g us h. cc; exact = λ g v us h. cc };
  numbered = λ k h. ground arith;
}

pub cache-IsUp : IsUp memory_cache
cache-IsUp = record { on = refl; invalidates = λ s g. refl }

run-send_authorised_example :
    (t : String) × ((uid : ℕ) × (("Bearer one" ≡ bearer ++ t)
        × ((parse_token two_users t "key" 80 ≡ some uid)
            × (may_send (run parts events world).session.tables uid 1 ≡ true))))
unfolding program
run-send_authorised_example =
    run-send_authorised memory_cache-IsCache parts cache-IsUp events world world-IsSound 80
      "Bearer one" (some hello) hello refl refl

world-IsOwnedBy : IsOwnedBy 1 1 world.session.tables
world-IsOwnedBy = record { old = omega arith; one_owner = λ v. ground arith }

run_server-IsOwnedBy_example : IsOwnedBy 1 1 (run parts events world).session.tables
run_server-IsOwnedBy_example =
    run_server-IsOwnedBy memory_cache-IsCache parts 1 1 cache-IsUp events world world-IsSound
      world-IsOwnedBy (tt, ((tt, ((λ uid e. tt), (tt, tt)))))

abbrev active_room : Room
active_room = record (room_row 1 2 0) { active_time = 100; last_msg_id = 4 }

-- The connection of user 4, who is not in the group.
stranger-IsApart : IsApart active_room 40 (run parts events world)
unfolding program
stranger-IsApart u l = ground arith

run-send_private_example :
    deliveries 40
      (serve (send encode 2 (some hello)) (record (run parts events world) { now = 70 })).1.hub.sent
    ≡ 0
unfolding program
run-send_private_example =
    run-send_private memory_cache-IsCache cache-IsUp parts events world world-IsSound 70 2 40
      (some hello) hello active_room refl refl refl stranger-IsApart
