-- ===== src/Room/Store/Create.antt =====
-- What creating a room does to the tables: internal/room/store.go.
use chatroom_server.Base.{ℕ, ◌≤◌, ◌≡◌, arith}
use chatroom_server.Db.{Session}
use chatroom_server.Room.Store.{create_friend_room, get_or_create_friend_room}

pub create_friend_room-members :
    (a b : ℕ) (s : Session) → (create_friend_room a b s).1.tables.members ≡ s.tables.members
unfolding create_friend_room
create_friend_room-members a b s = ground arith

pub create_friend_room-next :
    (a b : ℕ) (s : Session) → s.tables.next.room ≤ (create_friend_room a b s).1.tables.next.room
unfolding create_friend_room
create_friend_room-next a b s = ground arith

pub get_or_create_friend_room-members :
    (a b : ℕ) (s : Session) → (get_or_create_friend_room a b s).1.tables.members ≡ s.tables.members
unfolding get_or_create_friend_room
get_or_create_friend_room-members a b s = ground arith

pub get_or_create_friend_room-next :
    (a b : ℕ) (s : Session)
    → s.tables.next.room ≤ (get_or_create_friend_room a b s).1.tables.next.room
unfolding get_or_create_friend_room
get_or_create_friend_room-next a b s = ground arith
