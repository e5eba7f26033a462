-- ===== src/Server/Log/Rooms.antt =====
-- No request of a room touches the messages, and none but that of `markRead` the contacts:
-- internal/room/handler.go.
use chatroom_server.Base.{
  ℕ, ◌≡◌, refl, Bool, Option, none, some, List, ap, ◌∙◌, inl, inr, ◌⊎◌, arith,
}
use chatroom_server.MemberCache.{MemberCache}
use chatroom_server.Db.{Contact, Tables, Session}
use chatroom_server.World.{World, serve}
use chatroom_server.Room.Store
use chatroom_server.Room.RoomList.{list_rooms_for_user}
use chatroom_server.Room.Handler
use chatroom_server.Room.Handler.{CreateGroupRequest}
use chatroom_server.Room.Requests.{
  Request, mark_read, list_rooms, create_friend_room, create_group, add_member, remove_member,
  exit_group, set_admin, list_members, handle,
}
use chatroom_server.Server.Log.{Log, log_of}

-- The messages, and the contacts.
abbrev pub rows_of : Tables → Log × List Contact
rows_of t = (log_of t, t.contacts)

abbrev rows_at : {C : MemberCache} → World C → Log × List Contact
rows_at w = rows_of w.session.tables

get_or_create_friend_room-rows :
    (a b : ℕ) (s : Session)
    → rows_of (Store.get_or_create_friend_room a b s).1.tables ≡ rows_of s.tables
unfolding Store.get_or_create_friend_room
get_or_create_friend_room-rows a b s = ground arith

module _ {C : MemberCache} (uid : ℕ) (w : World C) where
  mark_read-log :
      (room : Option ℕ)
      → log_of (serve (Handler.mark_read uid room) w).1.session.tables ≡ log_of w.session.tables
  unfolding Handler.mark_read Store.reset_unread
  mark_read-log room = ground arith

  list_rooms-rows : rows_at (serve (Handler.list_rooms uid) w).1 ≡ rows_at w
  unfolding Handler.list_rooms list_rooms_for_user
  list_rooms-rows = ground arith

  create_room-rows :
      (body : Option ℕ) → rows_at (serve (Handler.create_friend_room uid body) w).1 ≡ rows_at w
  unfolding Handler.create_friend_room
  create_room-rows none = refl
  create_room-rows (some v) = ground (arith, get_or_create_friend_room-rows uid v w.session)

  create_group-rows :
      (body : Option CreateGroupRequest)
      → rows_at (serve (Handler.create_group uid body) w).1 ≡ rows_at w
  unfolding Handler.create_group Store.create_group_room
  create_group-rows body = ground arith

  add_member-rows :
      (room body : Option ℕ) → rows_at (serve (Handler.add_member uid room body) w).1 ≡ rows_at w
  unfolding Handler.add_member Store.get_member Store.add_member
  add_member-rows room body = ground arith

  remove_member-rows :
      (room target : Option ℕ)
      → rows_at (serve (Handler.remove_member uid room target) w).1 ≡ rows_at w
  unfolding Handler.remove_member Store.get_member Store.remove_member
  remove_member-rows room target = ground arith

  exit_group-rows :
      (room : Option ℕ) → rows_at (serve (Handler.exit_group uid room) w).1 ≡ rows_at w
  unfolding Handler.exit_group Store.get_member Store.remove_member
  exit_group-rows room = ground arith

  set_admin-rows :
      (room target : Option ℕ) (body : Option Bool)
      → rows_at (serve (Handler.set_admin uid room target body) w).1 ≡ rows_at w
  unfolding Handler.set_admin Store.get_member Store.set_role
  set_admin-rows room target body = ground arith

  list_members-rows :
      (room : Option ℕ) → rows_at (serve (Handler.list_members room) w).1 ≡ rows_at w
  unfolding Handler.list_members Store.list_members
  list_members-rows room = ground arith

-- A request marks a room as read, or changes neither.
pub handle-rows :
    {C : MemberCache} (uid : ℕ) (req : Request) (w : World C)
    → ((room : Option ℕ) × (req ≡ mark_read room))
      ⊎ (rows_of (serve (handle uid req) w).1.session.tables ≡ rows_of w.session.tables)
handle-rows uid (mark_read room) w = inl (room, refl)
handle-rows uid list_rooms w = inr (list_rooms-rows uid w)
handle-rows uid (create_friend_room body) w = inr (create_room-rows uid w body)
handle-rows uid (create_group body) w = inr (create_group-rows uid w body)
handle-rows uid (add_member room body) w = inr (add_member-rows uid w room body)
handle-rows uid (remove_member room v) w = inr (remove_member-rows uid w room v)
handle-rows uid (exit_group room) w = inr (exit_group-rows uid w room)
handle-rows uid (set_admin room v body) w = inr (set_admin-rows uid w room v body)
handle-rows uid (list_members room) w = inr (list_members-rows uid w room)

pub handle-log :
    {C : MemberCache} (uid : ℕ) (req : Request) (w : World C)
    → log_of (serve (handle uid req) w).1.session.tables ≡ log_of w.session.tables
handle-log uid req w = elim (handle-rows uid req w) [
  | inl (room, e) ↦
      ap (λ r. log_of (serve (handle uid r) w).1.session.tables) e ∙ mark_read-log uid w room
  | inr same ↦ ap (λ x. x.0) same
]
