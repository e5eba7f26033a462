-- ===== src/Tests/RoomLists.antt =====
-- The list of rooms of internal/room at the small database.
use chatroom_server.Base.{ℕ, ◌≡◌, refl, none, some, List, [], ◌∷◌, any, All}
use chatroom_server.Base.Sort.{sort_by, IsSorted}
use mathlib.Core.List.{flat_map}
use chatroom_server.Db.{Session}
use chatroom_server.World.{serve}
use chatroom_server.Http.{rooms}
use chatroom_server.Room.Model.{RoomSummary, type_group, type_friend}
use chatroom_server.Room.Store as Store
use chatroom_server.Room.Store.Unread.{unread}
use chatroom_server.Room.RoomList.{
  room_rows, member_rows, friend_rows, summaries, more_recent, list_rooms_for_user,
}
use chatroom_server.Room.RoomList.Rooms.{is_of_room, is_shown, list_rooms_for_user-is_shown}
use chatroom_server.Server.Mux.{find_handler}
use chatroom_server.Server.Site.{Site, serve_http}
use chatroom_server.Server.Site.Events.{Arrival, comes, ends, run_site}
use chatroom_server.Server.Contacts.Site.{run_site-unread}
use chatroom_server.Ws.Hub.{unregister}
use chatroom_server.Ws.Handler.{leave}
use chatroom_server.Room.Handler.{list_rooms}
use chatroom_server.Tests.Data.{memory_cache, session, world}
use chatroom_server.Tests.Files.{media}
use chatroom_server.Tests.Sites.{parts, media_parts, decoders, site, sends, at_time}

program : Unit {0}
unfolding sort_by flat_map room_rows member_rows friend_rows summaries list_rooms_for_user
    list_rooms Store.bump_unread Store.bump_all Store.touch_room serve_http find_handler leave
    unregister
program = tt

-- The group of room 1 has been written to at the time 100, and user 1 has not read that.
abbrev active : Session
active = (Store.bump_unread 1 (1 ∷ []) (Store.touch_room 1 3 session).1).1

abbrev rows_of_one : List RoomSummary
rows_of_one =
    record {
      room_id = 1;
      type = type_group;
      name = "team";
      peer_uid = 0;
      active_time = 100;
      last_message = some "hi";
      last_message_at = some 5;
      unread_count = 1;
    }
    ∷ (record {
      room_id = 2;
      type = type_friend;
      name = "";
      peer_uid = 4;
      active_time = 0;
      last_message = none;
      last_message_at = none;
      unread_count = 0;
    }
        ∷ [])

list_rooms_for_user-is_shown_example :
    ((k : ℕ) → any (is_of_room k) rows_of_one ≡ is_shown active.tables 1 k)
    × IsSorted more_recent rows_of_one
unfolding program
list_rooms_for_user-is_shown_example = list_rooms_for_user-is_shown 1 active rows_of_one refl

abbrev active_site : Site memory_cache media
active_site = record site { world = record site.world { session = active } }

-- A request without a token, and the end of a connection.
abbrev strangers : List Arrival
strangers = comes (sends "POST" ("api" ∷ "messages" ∷ []) "" "") (at_time 60) ∷ (ends 6 1 ∷ [])

abbrev after : Session
after = (run_site parts media_parts decoders strangers active_site).world.session

run_site-unread_example :
    All (λ row. row.unread_count ≡ unread after.tables.contacts 1 row.room_id) rows_of_one
unfolding program
run_site-unread_example =
    run_site-unread parts media_parts decoders strangers active_site (refl, tt) 1 rows_of_one refl

shown_to_stranger : (serve (list_rooms 9) world).0.body ≡ rooms []
unfolding program
shown_to_stranger = refl
