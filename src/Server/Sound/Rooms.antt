-- ===== src/Server/Sound/Rooms.antt =====
-- The handlers of internal/room/handler.go: rooms are numbered by the table's counter.
use chatroom_server.Base.{ℕ, ◌<◌, ◌≡◌, true, none, some, any, arith, ◌==◌, Bool-cases, inl, inr}
use chatroom_server.MemberCache.{MemberCache, IsCache}
use chatroom_server.Db.{Session, Tables}
use chatroom_server.World.{World, serve}
use chatroom_server.Room.Rows.{has_id}
use chatroom_server.Room.Store
use chatroom_server.Room.RoomList.{list_rooms_for_user}
use chatroom_server.Room.Handler
use chatroom_server.Room.Requests.{
  Request, mark_read, list_rooms, create_friend_room, create_group, add_member, remove_member,
  exit_group, set_admin, list_members, handle,
}
use chatroom_server.Coherence.Invalidation.{IsUp, handle-IsCoherent}
use chatroom_server.Server.Sound.{IsSound}

-- The rooms stand below the next number.
abbrev IsNumbered : Tables → Type 0
IsNumbered t = (k : ℕ) → any (has_id k) t.rooms ≡ true → k < t.next.room

create_friend_room-IsNumbered :
    (a b : ℕ) (s : Session)
    → IsNumbered s.tables
    → IsNumbered (Store.create_friend_room a b s).1.tables
unfolding Store.create_friend_room
create_friend_room-IsNumbered a b s p k h = ground (arith, p k)

get_or_create_friend_room-IsNumbered :
    (a b : ℕ) (s : Session)
    → IsNumbered s.tables
    → IsNumbered (Store.get_or_create_friend_room a b s).1.tables
unfolding Store.get_or_create_friend_room
get_or_create_friend_room-IsNumbered a b s p k h = ground (arith, p k)

module _ {C : MemberCache} where
  friend_room-IsNumbered :
      (uid v : ℕ) (w : World C)
      → IsNumbered w.session.tables
      → IsNumbered (serve (Handler.create_friend_room uid (some v)) w).1.session.tables
  unfolding Handler.create_friend_room
  friend_room-IsNumbered uid v w p k h =
      let q = get_or_create_friend_room-IsNumbered uid v w.session p k in
      elim (Bool-cases (v == 0)) [
        | inl e ↦ ground (arith, p k, e)
        | inr e ↦ elim (Bool-cases (v == uid)) [
          | inl f ↦ ground (arith, p k, e, f)
          | inr f ↦ ground (arith, q, e, f)
        ]
      ]

  -- Every request of a room numbers its new rooms by the counter.
  handle-IsNumbered :
      (uid : ℕ) (req : Request) (w : World C)
      → IsNumbered w.session.tables
      → IsNumbered (serve (handle uid req) w).1.session.tables
  unfolding Handler.mark_read Store.reset_unread Handler.list_rooms list_rooms_for_user
      Handler.create_friend_room Handler.create_group Store.create_group_room Handler.add_member
      Handler.remove_member Handler.exit_group Handler.set_admin Handler.list_members
      Store.get_member Store.add_member Store.remove_member Store.set_role Store.list_members
  handle-IsNumbered uid (mark_read room) w p k h = ground (arith, p k)
  handle-IsNumbered uid list_rooms w p k h = ground (arith, p k)
  handle-IsNumbered uid (create_friend_room none) w p k h = p k h
  handle-IsNumbered uid (create_friend_room (some v)) w p k h = friend_room-IsNumbered uid v w p k h
  handle-IsNumbered uid (create_group body) w p k h = ground (arith, p k)
  handle-IsNumbered uid (add_member none body) w p k h = p k h
  handle-IsNumbered uid (add_member (some g) none) w p k h = p k h
  handle-IsNumbered uid (add_member (some g) (some v)) w p k h = ground (arith, p k)
  handle-IsNumbered uid (remove_member none v) w p k h = p k h
  handle-IsNumbered uid (remove_member (some g) none) w p k h = p k h
  handle-IsNumbered uid (remove_member (some g) (some v)) w p k h = ground (arith, p k)
  handle-IsNumbered uid (exit_group none) w p k h = p k h
  handle-IsNumbered uid (exit_group (some g)) w p k h = ground (arith, p k)
  handle-IsNumbered uid (set_admin none v body) w p k h = p k h
  handle-IsNumbered uid (set_admin (some g) none body) w p k h = p k h
  handle-IsNumbered uid (set_admin (some g) (some v) none) w p k h = p k h
  handle-IsNumbered uid (set_admin (some g) (some v) (some b)) w p k h = ground (arith, p k)
  handle-IsNumbered uid (list_members none) w p k h = p k h
  handle-IsNumbered uid (list_members (some g)) w p k h = ground (arith, p k)

  -- Where the cache is in use and its server takes every invalidation, a request of a room keeps the world
  -- sound.
  pub handle-IsSound :
      IsCache C
      → IsUp C
      → (uid : ℕ) (req : Request) (w : World C) → IsSound C w
      → IsSound C (serve (handle uid req) w).1
  handle-IsSound lawful up uid req w p = record {
    coherent = handle-IsCoherent lawful up uid req w p.coherent;
    numbered = handle-IsNumbered uid req w p.numbered;
  }
