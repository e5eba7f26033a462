-- ===== src/Coherence/Invalidation.antt =====
-- The requests of internal/room/handler.go keep the member cache in step with the table, as long as the
-- cache server takes the invalidations, whose errors the handlers drop.
use chatroom_server.Base.{ℕ, ◌≡◌, Bool, true, Option, none, some, List, if◌then◌else◌, arith}
use chatroom_server.MemberCache.{MemberCache, IsCache}
use chatroom_server.Http.{Response}
use chatroom_server.World.{World, serve}
use chatroom_server.Room.Model.{Member, role_admin, role_member}
use chatroom_server.Room.Store
use chatroom_server.Room.RoomList.{list_rooms_for_user}
use chatroom_server.Room.Store.Members.{any-delete, any-set_role}
use chatroom_server.Room.Store.Create.{
  get_or_create_friend_room-members, get_or_create_friend_room-next,
}
use chatroom_server.Room.Handler
use chatroom_server.Room.Handler.{CreateGroupRequest}
use chatroom_server.Room.Requests.{
  Request, mark_read, list_rooms, create_friend_room, create_group, add_member, remove_member,
  exit_group, set_admin, list_members, handle,
}
use chatroom_server.Coherence.{IsCoherent}

-- The cache is in use, and its server takes every invalidation.
pub record IsUp (C : MemberCache) : Type 0 where
  pub on : C.enabled ≡ true
  pub invalidates : (s : C.State) (g : ℕ) → (C.invalidate s g).0 ≡ true

module _ {C : MemberCache} (lawful : IsCache C) (up : IsUp C) (uid : ℕ) (w : World C)
    (fresh : IsCoherent C w) where
  abbrev ms : List Member
  ms = w.session.tables.members

  abbrev Keeps : Response × World C → Type 0
  Keeps (r, w') = IsCoherent C w'

  mark_read-Keeps : (room : Option ℕ) → Keeps (serve (Handler.mark_read uid room) w)
  unfolding Handler.mark_read Store.reset_unread
  mark_read-Keeps room = record {
    known = λ g us e. ground (arith, fresh.known g us);
    exact = λ g x us e. ground (arith, fresh.exact g x us);
  }

  list_rooms-Keeps : Keeps (serve (Handler.list_rooms uid) w)
  unfolding Handler.list_rooms list_rooms_for_user
  list_rooms-Keeps = record {
    known = λ g us e. ground (arith, fresh.known g us);
    exact = λ g x us e. ground (arith, fresh.exact g x us);
  }

  create_friend_room-Keeps :
      (body : Option ℕ) → Keeps (serve (Handler.create_friend_room uid body) w)
  unfolding Handler.create_friend_room
  create_friend_room-Keeps none = fresh
  create_friend_room-Keeps (some v) = record {
    known =
        λ g us e. ground (arith, fresh.known g us, get_or_create_friend_room-next uid v w.session);
    exact = λ g x us e.
        ground (arith, fresh.exact g x us, get_or_create_friend_room-members uid v w.session);
  }

  create_group-Keeps :
      (body : Option CreateGroupRequest) → Keeps (serve (Handler.create_group uid body) w)
  unfolding Handler.create_group Store.create_group_room
  create_group-Keeps body = record {
    known = λ g us e. ground (arith, fresh.known g us);
    exact = λ g x us e. ground (arith, fresh.known g us, fresh.exact g x us);
  }

  add_member-Keeps : (room body : Option ℕ) → Keeps (serve (Handler.add_member uid room body) w)
  unfolding Handler.add_member Store.get_member Store.add_member
  add_member-Keeps none body = fresh
  add_member-Keeps (some h) none = fresh
  add_member-Keeps (some h) (some v) = record {
    known = λ g us e. ground (arith, fresh.known g us, lawful.holds-invalidate w.cache h g us);
    exact = λ g x us e. ground (
      arith,
      up.on,
      fresh.exact g x us,
      up.invalidates w.cache h,
      lawful.holds-invalidate w.cache h g us,
      lawful.holds-invalidate_self w.cache h,
    );
  }

  remove_member-Keeps :
      (room target : Option ℕ) → Keeps (serve (Handler.remove_member uid room target) w)
  unfolding Handler.remove_member Store.get_member Store.remove_member
  remove_member-Keeps none target = fresh
  remove_member-Keeps (some h) none = fresh
  remove_member-Keeps (some h) (some v) = record {
    known = λ g us e. ground (arith, fresh.known g us, lawful.holds-invalidate w.cache h g us);
    exact = λ g x us e. ground (
      arith,
      up.on,
      fresh.exact g x us,
      up.invalidates w.cache h,
      lawful.holds-invalidate w.cache h g us,
      lawful.holds-invalidate_self w.cache h,
      any-delete h v g x ms,
    );
  }

  exit_group-Keeps : (room : Option ℕ) → Keeps (serve (Handler.exit_group uid room) w)
  unfolding Handler.exit_group Store.get_member Store.remove_member
  exit_group-Keeps none = fresh
  exit_group-Keeps (some h) = record {
    known = λ g us e. ground (arith, fresh.known g us, lawful.holds-invalidate w.cache h g us);
    exact = λ g x us e. ground (
      arith,
      up.on,
      fresh.exact g x us,
      up.invalidates w.cache h,
      lawful.holds-invalidate w.cache h g us,
      lawful.holds-invalidate_self w.cache h,
      any-delete h uid g x ms,
    );
  }

  set_admin-Keeps :
      (room target : Option ℕ) (body : Option Bool)
      → Keeps (serve (Handler.set_admin uid room target body) w)
  unfolding Handler.set_admin Store.get_member Store.set_role
  set_admin-Keeps none target body = fresh
  set_admin-Keeps (some h) none body = fresh
  set_admin-Keeps (some h) (some v) none = fresh
  set_admin-Keeps (some h) (some v) (some b) = record {
    known = λ g us e. ground (arith, fresh.known g us);
    exact = λ g x us e. ground (
      arith,
      fresh.exact g x us,
      any-set_role h v g x (if b then role_admin else role_member) ms,
    );
  }

  list_members-Keeps : (room : Option ℕ) → Keeps (serve (Handler.list_members room) w)
  unfolding Handler.list_members Store.list_members
  list_members-Keeps room = record {
    known = λ g us e. ground (arith, fresh.known g us);
    exact = λ g x us e. ground (arith, fresh.exact g x us);
  }

-- Where the cache is in use and its server takes every invalidation, each request of a room keeps the
-- cache in step with the tables, whatever statements fail.
pub handle-IsCoherent :
    {C : MemberCache}
    → IsCache C
    → IsUp C
    → (uid : ℕ) (req : Request) (w : World C) → IsCoherent C w
    → IsCoherent C (serve (handle uid req) w).1
handle-IsCoherent l up uid (mark_read room) w h = mark_read-Keeps l up uid w h room
handle-IsCoherent l up uid list_rooms w h = list_rooms-Keeps l up uid w h
handle-IsCoherent l up uid (create_friend_room body) w h =
    create_friend_room-Keeps l up uid w h body
handle-IsCoherent l up uid (create_group body) w h = create_group-Keeps l up uid w h body
handle-IsCoherent l up uid (add_member room body) w h = add_member-Keeps l up uid w h room body
handle-IsCoherent l up uid (remove_member room v) w h = remove_member-Keeps l up uid w h room v
handle-IsCoherent l up uid (exit_group room) w h = exit_group-Keeps l up uid w h room
handle-IsCoherent l up uid (set_admin room v body) w h = set_admin-Keeps l up uid w h room v body
handle-IsCoherent l up uid (list_members room) w h = list_members-Keeps l up uid w h room
