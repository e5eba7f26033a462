-- ===== src/Tests/Calls.antt =====
-- Requests of internal/call at the small database.
use chatroom_server.Base.{ℕ, ◌≡◌, refl, String, true, false, Option, some, [], ◌∷◌, contains, arith}
use chatroom_server.World.{serve}
use chatroom_server.Http.{call_token}
use chatroom_server.Room.Role.{is_participant}
use chatroom_server.Room.Store
use chatroom_server.Base.Sort.{sort_by}
use chatroom_server.Ws.Hub.{conns_of, send_to_users}
use chatroom_server.Ws.Hub.Delivery.{deliveries}
use chatroom_server.Call.Token.{AccessTokenClaims, room_name, mint_token}
use chatroom_server.Text.Decimal.{format_int}
use chatroom_server.Call.Handler.{
  Config, InviteRequest, other_participants, room_of_caller, token, push_invite, invite,
}
use chatroom_server.Call.Handler.Access.{invited, is_listed, invite-private}
use chatroom_server.Tests.Data.{world, tables, encode, room_row}

program : Unit {0}
unfolding token invite room_of_caller push_invite other_participants is_participant mint_token
    format_int room_name send_to_users Store.get_room Store.get_member Store.get_friend_by_room_id
    Store.list_members sort_by
program = tt

abbrev config : Config
config = record { api_key = "key"; api_secret = "secret"; public_url = "wss://calls" }

-- A signature that shows the room and the caller.
abbrev sign : AccessTokenClaims → String → Option String
sign c secret = some c.video.room

name_of_room : room_name 305 ≡ "room-305"
unfolding program
name_of_room = refl

member_token :
    (serve (token sign config 3 (some 1)) world).0
    ≡ record { status = 200; body = call_token "room-1" "wss://calls" }
unfolding program
member_token = refl

abbrev video : ℕ → InviteRequest
video room_id = record { room_id = room_id; mode = "video" }

-- The group hears of the call, but for the caller.
group_hears :
    (invited encode 2 (video 1) world).1.hub.sent
    ≡ (30, "call_invite") ∷ (11, "call_invite") ∷ (10, "call_invite") ∷ []
unfolding program
group_hears = refl

invite-private_example :
    (deliveries 40 (invited encode 2 (video 1) world).1.hub.sent ≡ 0)
    × ((invited encode 2 (video 1) world).1.session.tables ≡ tables)
invite-private_example = invite-private encode 2 (video 1) world (room_row 1 2 0) 40 refl apart
  where
    apart :
        (u : ℕ)
        → is_listed tables (room_row 1 2 0) u ≡ true
        → contains (conns_of world.hub.conns u) 40 ≡ false
    apart u h = ground arith
