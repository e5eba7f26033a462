-- ===== src/Tests/Rooms.antt =====
-- Requests of internal/room at the small database.
use chatroom_server.Base.{
  ℕ, ◌≡◌, ◌≢◌, refl, true, false, some, List, [], ◌∷◌, find?, any, ◌==◌, ◌&&◌, if◌then◌else◌, arith,
}
use chatroom_server.Base.Rows.{delete_where}
use mathlib.Core.Option
use chatroom_server.Db.{Session}
use chatroom_server.World.{serve}
use chatroom_server.Http.{room_id, error}
use chatroom_server.Room.Model.{type_group, hot_no}
use chatroom_server.Room.Role.{can_remove_member, can_set_admin}
use chatroom_server.Room.Store
use chatroom_server.Room.Rows.{is_member, has_id, is_pair, is_friend_of}
use chatroom_server.Room.Store.FriendRoom.{
  friend_room, get_or_create_friend_room-friend_room, create_friend_room-twice,
}
use chatroom_server.Room.Handler
use chatroom_server.Room.Handler.Removal.{
  may_remove, may_leave, removed, left, remove_member-deletes, remove_member-succeeds,
  exit_group-deletes,
}
use chatroom_server.Room.Requests.{Request}
use chatroom_server.Room.Ownership.{IsOwnedBy, is_owner}
use chatroom_server.Room.Owner.{created, type_and_hot, create_group-IsOwnedBy, set_admin-no_owner}
use chatroom_server.Coherence.{IsCoherent}
use chatroom_server.Coherence.Invalidation.{IsUp}
use chatroom_server.Tests.Data.{memory_cache, session, world, tables}

program : Unit {0}
unfolding Handler.remove_member Handler.exit_group Handler.set_admin Handler.create_group
    Handler.add_member Store.get_member Store.remove_member Store.set_role Store.create_group_room
    Store.add_member Store.get_or_create_friend_room Store.find_friend_room Store.create_friend_room
    Store.bump_unread Store.bump_all Store.reset_unread can_remove_member can_set_admin
program = tt

admin_removes_member : (serve (Handler.remove_member 2 (some 1) (some 3)) world).0.status ≡ 200
unfolding program
admin_removes_member = refl

admin_keeps_owner :
    (serve (Handler.remove_member 2 (some 1) (some 1)) world).0
    ≡ record { status = 403; body = error 403 "not allowed to remove this member" }
unfolding program
admin_keeps_owner = refl

owner_stays : (serve (Handler.exit_group 1 (some 1)) world).0.status ≡ 403
unfolding program
owner_stays = refl

-- A member who is there already is refused by the unique key.
no_second_row : (serve (Handler.add_member 2 (some 1) (some 3)) world).0.status ≡ 500
unfolding program
no_second_row = refl

world-IsOwnedBy : IsOwnedBy 1 1 world.session.tables
world-IsOwnedBy = record { old = omega arith; one_owner = λ v. ground arith }

world-IsCoherent : IsCoherent memory_cache world
world-IsCoherent = record { known = λ g us h. cc; exact = λ g v us h. cc }

memory_cache-IsUp : IsUp memory_cache
memory_cache-IsUp = record { on = refl; invalidates = λ s g. refl }

remove_member-deletes_example :
    let ms = tables.members in
    (may_remove (find? (is_member 1 2) ms) (find? (is_member 1 3) ms) ≡ true)
    × ((removed 2 1 3 world).1.session.tables
        ≡ record tables { members = delete_where (is_member 1 3) ms })
unfolding program
remove_member-deletes_example = remove_member-deletes 2 1 3 world refl

remove_member-succeeds_example : (removed 1 1 2 world).0.status ≡ 200
unfolding program
remove_member-succeeds_example = remove_member-succeeds 1 1 2 world (λ n. refl) refl

exit_group-deletes_example :
    (may_leave (find? (is_member 1 3) tables.members) ≡ true)
    × ((left 0 1 3 world).1.session.tables
        ≡ record tables { members = delete_where (is_member 1 3) tables.members })
unfolding program
exit_group-deletes_example = exit_group-deletes 0 1 3 world refl

abbrev requests : List (ℕ × Request)
requests =
    (2, Request.remove_member (some 1) (some 3))
    ∷ (1, Request.set_admin (some 1) (some 2) (some false))
    ∷ (1, Request.exit_group (some 1))
    ∷ (2, Request.add_member (some 1) (some 5))
    ∷ []

create_group-IsOwnedBy_example :
    let w' = (created 7 world (some (record { name = "club"; avatar = "" }))).1 in
    ((created 7 world (some (record { name = "club"; avatar = "" }))).0.body ≡ room_id 4)
    × IsOwnedBy 4 7 w'.session.tables
    × (Option.map type_and_hot (find? (has_id 4) w'.session.tables.rooms)
        ≡ some (type_group, hot_no))
    × ((g v : ℕ)
        → find? (is_member g v) w'.session.tables.members
          ≡ find? (is_member g v) (if g == 4 then w'.session.tables.members else tables.members))
unfolding program
create_group-IsOwnedBy_example =
    create_group-IsOwnedBy 7 world (some (record { name = "club"; avatar = "" })) (λ v. refl) refl

set_admin-no_owner_example :
    is_owner (
      find?
        (is_member 1 1)
        (serve (Handler.set_admin 1 (some 1) (some 1) (some true)) world).1.session.tables.members)
    ≡ false
unfolding program
set_admin-no_owner_example = set_admin-no_owner 1 world 1 true world-IsOwnedBy refl 1

get_or_create_friend_room-friend_room_example :
    friend_room (Store.get_or_create_friend_room 5 2 session).1.tables 5 2 ≡ some 4
unfolding program
get_or_create_friend_room-friend_room_example =
    get_or_create_friend_room-friend_room 5 2 session 4 refl

abbrev looked : Session
looked = record session { tick = 1 }

abbrev looked_twice : Session
looked_twice = record session { tick = 2 }

create_friend_room-twice_example :
    (◌≢◌ {A = ℕ} 4 5)
    × (any
          (λ f. is_pair 2 5 f && is_friend_of 4 f)
          (Store.create_friend_room 2 5
            (Store.create_friend_room 2 5 looked_twice).1).1.tables.friends
        ≡ true)
    × (any
          (λ f. is_pair 2 5 f && is_friend_of 5 f)
          (Store.create_friend_room 2 5
            (Store.create_friend_room 2 5 looked_twice).1).1.tables.friends
        ≡ true)
unfolding program
create_friend_room-twice_example =
    create_friend_room-twice 2 5 4 5 session looked looked_twice
      (Store.create_friend_room 2 5 looked_twice).1
      (Store.create_friend_room 2 5 (Store.create_friend_room 2 5 looked_twice).1).1 refl refl refl
      refl
