-- ===== src/Room/Requests.antt =====
-- The requests that `RegisterRoutes` of internal/room/handler.go routes, and a run of several.
use chatroom_server.Base.{ℕ, Bool, Option, List, [], ◌∷◌}
use chatroom_server.MemberCache.{MemberCache}
use chatroom_server.World.{World, Handler, serve}
use chatroom_server.Http.{Response}
use chatroom_server.Room.Handler
use chatroom_server.Room.Handler.{CreateGroupRequest}

pub data Request : Type 0 where
  mark_read : Option ℕ → Request
  list_rooms : Request
  create_friend_room : Option ℕ → Request
  create_group : Option CreateGroupRequest → Request
  add_member : Option ℕ → Option ℕ → Request
  remove_member : Option ℕ → Option ℕ → Request
  exit_group : Option ℕ → Request
  set_admin : Option ℕ → Option ℕ → Option Bool → Request
  list_members : Option ℕ → Request

module _ {C : MemberCache} where
  -- The handler of a request that the user `uid` sends.
  abbrev pub handle : ℕ → Request → Handler C Response
  handle uid (mark_read room) = Handler.mark_read uid room
  handle uid list_rooms = Handler.list_rooms uid
  handle uid (create_friend_room body) = Handler.create_friend_room uid body
  handle uid (create_group body) = Handler.create_group uid body
  handle uid (add_member room body) = Handler.add_member uid room body
  handle uid (remove_member room target) = Handler.remove_member uid room target
  handle uid (exit_group room) = Handler.exit_group uid room
  handle uid (set_admin room target body) = Handler.set_admin uid room target body
  handle uid (list_members room) = Handler.list_members room

  -- The world after the requests, each served as a whole.
  abbrev pub run : List (ℕ × Request) → World C → World C
  run [] w = w
  run ((uid, req) ∷ reqs) w = run reqs (serve (handle uid req) w).1
