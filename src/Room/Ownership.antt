-- ===== src/Room/Ownership.antt =====
-- A group has one owner: what the requests of internal/room/handler.go do to the owner of a group.
use chatroom_server.Base.{
  ℕ, ◌<◌, ◌≡◌, ◌≢◌, Bool, false, Option, none, some, List, [], ◌∷◌, ◌==◌, find?, arith, All,
  if◌then◌else◌,
}
use chatroom_server.Base.Rows.{find?-any}
use chatroom_server.MemberCache.{MemberCache}
use chatroom_server.Db.{Tables}
use chatroom_server.World.{World, serve}
use chatroom_server.Room.Model.{Member, role_owner, role_admin, role_member}
use chatroom_server.Room.Role.{can_remove_member, can_set_admin}
use chatroom_server.Room.Store
use chatroom_server.Room.RoomList.{list_rooms_for_user}
use chatroom_server.Room.Rows.{is_member}
use chatroom_server.Room.Store.Members.{find-delete, find-set_role, find-same}
use chatroom_server.Room.Store.Create.{
  get_or_create_friend_room-members, get_or_create_friend_room-next,
}
use chatroom_server.Http.{Response}
use chatroom_server.Room.Handler
use chatroom_server.Room.Handler.{CreateGroupRequest}
use chatroom_server.Room.Requests.{
  Request, mark_read, list_rooms, create_friend_room, create_group, add_member, remove_member,
  exit_group, set_admin, list_members, handle, run,
}

abbrev pub is_owner : Option Member → Bool
is_owner none = false
is_owner (some m) = m.role == role_owner

-- The group is older than the next room, and `u` is its owner and the only one.
pub record IsOwnedBy (g u : ℕ) (t : Tables) : Type 0 where
  pub old : g < t.next.room
  pub one_owner : (v : ℕ) → is_owner (find? (is_member g v) t.members) ≡ (v == u)

-- The request is not the owner's own promotion or demotion of itself.
abbrev pub IsNoSelfDemotion : ℕ → ℕ → ℕ × Request → Type 0
IsNoSelfDemotion g u (uid, set_admin (some h) (some v) body) = (uid ≡ u) → (h ≡ g) → (v ≢ u)
IsNoSelfDemotion g u (uid, _) = Unit

module _ {C : MemberCache} (g u uid : ℕ) (w : World C) (o : IsOwnedBy g u w.session.tables) where
  abbrev ms : List Member
  ms = w.session.tables.members

  -- Each request keeps the owner, but for the owner's own change of its role.
  abbrev Keeps : Response × World C → Type 0
  Keeps (r, w') = IsOwnedBy g u w'.session.tables

  mark_read-Keeps : (room : Option ℕ) → Keeps (serve (Handler.mark_read uid room) w)
  unfolding Handler.mark_read Store.reset_unread
  mark_read-Keeps room = record {
    old = ground (arith, o.old);
    one_owner = λ x. ground (arith, o.one_owner x);
  }

  list_rooms-Keeps : Keeps (serve (Handler.list_rooms uid) w)
  unfolding Handler.list_rooms list_rooms_for_user
  list_rooms-Keeps = record {
    old = ground (arith, o.old);
    one_owner = λ x. ground (arith, o.one_owner x);
  }

  create_friend_room-Keeps :
      (body : Option ℕ) → Keeps (serve (Handler.create_friend_room uid body) w)
  unfolding Handler.create_friend_room
  create_friend_room-Keeps none = o
  create_friend_room-Keeps (some v) = record {
    old = ground (arith, o.old, get_or_create_friend_room-next uid v w.session);
    one_owner =
        λ x. ground (arith, o.one_owner x, get_or_create_friend_room-members uid v w.session);
  }

  create_group-Keeps :
      (body : Option CreateGroupRequest) → Keeps (serve (Handler.create_group uid body) w)
  unfolding Handler.create_group Store.create_group_room
  create_group-Keeps body = record {
    old = ground (arith, o.old);
    one_owner = λ x. ground (arith, o.old, o.one_owner x);
  }

  add_member-Keeps : (room body : Option ℕ) → Keeps (serve (Handler.add_member uid room body) w)
  unfolding Handler.add_member Store.get_member Store.add_member
  add_member-Keeps none body = o
  add_member-Keeps (some h) none = o
  add_member-Keeps (some h) (some v) = record {
    old = ground (arith, o.old);
    one_owner =
        λ x. ground (arith, o.one_owner x, find?-any (is_member h v) ms, find-same h v g x ms);
  }

  remove_member-Keeps :
      (room target : Option ℕ) → Keeps (serve (Handler.remove_member uid room target) w)
  unfolding Handler.remove_member Store.get_member Store.remove_member can_remove_member
  remove_member-Keeps none target = o
  remove_member-Keeps (some h) none = o
  remove_member-Keeps (some h) (some v) = record {
    old = ground (arith, o.old);
    one_owner = λ x. ground (arith, o.one_owner x, find-delete h v g x ms);
  }

  exit_group-Keeps : (room : Option ℕ) → Keeps (serve (Handler.exit_group uid room) w)
  unfolding Handler.exit_group Store.get_member Store.remove_member
  exit_group-Keeps none = o
  exit_group-Keeps (some h) = record {
    old = ground (arith, o.old);
    one_owner = λ x. ground (arith, o.one_owner x, find-delete h uid g x ms);
  }

  set_admin-Keeps :
      (room target : Option ℕ) (body : Option Bool)
      → IsNoSelfDemotion g u (uid, set_admin room target body)
      → Keeps (serve (Handler.set_admin uid room target body) w)
  unfolding Handler.set_admin Store.get_member Store.set_role can_set_admin
  set_admin-Keeps none target body other = o
  set_admin-Keeps (some h) none body other = o
  set_admin-Keeps (some h) (some v) none other = o
  set_admin-Keeps (some h) (some v) (some b) other = record {
    old = ground (arith, o.old);
    one_owner = λ x. ground (
      arith,
      other,
      o.one_owner x,
      o.one_owner uid,
      o.one_owner v,
      find-set_role h v g x (if b then role_admin else role_member) ms,
      find-same h v g x ms,
    );
  }

  list_members-Keeps : (room : Option ℕ) → Keeps (serve (Handler.list_members room) w)
  unfolding Handler.list_members Store.list_members
  list_members-Keeps room = record {
    old = ground (arith, o.old);
    one_owner = λ x. ground (arith, o.one_owner x);
  }

-- A group that has one owner keeps it through every request of a room, whatever statements fail, but
-- for the owner's own request to make itself an admin or a plain member.
pub handle-IsOwnedBy :
    {C : MemberCache} (g u uid : ℕ) (req : Request) (w : World C)
    → IsOwnedBy g u w.session.tables
    → IsNoSelfDemotion g u (uid, req)
    → IsOwnedBy g u (serve (handle uid req) w).1.session.tables
handle-IsOwnedBy g u uid (mark_read room) w o h = mark_read-Keeps g u uid w o room
handle-IsOwnedBy g u uid list_rooms w o h = list_rooms-Keeps g u uid w o
handle-IsOwnedBy g u uid (create_friend_room body) w o h = create_friend_room-Keeps g u uid w o body
handle-IsOwnedBy g u uid (create_group body) w o h = create_group-Keeps g u uid w o body
handle-IsOwnedBy g u uid (add_member room body) w o h = add_member-Keeps g u uid w o room body
handle-IsOwnedBy g u uid (remove_member room v) w o h = remove_member-Keeps g u uid w o room v
handle-IsOwnedBy g u uid (exit_group room) w o h = exit_group-Keeps g u uid w o room
handle-IsOwnedBy g u uid (set_admin room v body) w o h = set_admin-Keeps g u uid w o room v body h
handle-IsOwnedBy g u uid (list_members room) w o h = list_members-Keeps g u uid w o room

-- A group that has one owner keeps it through any sequence of room requests of any users, served one
-- after the other, whatever statements fail, if none of them is the owner's own request to make itself
-- an admin or a plain member.
pub run-IsOwnedBy :
    {C : MemberCache} (g u : ℕ) (reqs : List (ℕ × Request)) (w : World C)
    → IsOwnedBy g u w.session.tables
    → All (IsNoSelfDemotion g u) reqs
    → IsOwnedBy g u (run reqs w).session.tables
run-IsOwnedBy g u [] w o h = o
run-IsOwnedBy g u ((uid, req) ∷ reqs) w o h =
    run-IsOwnedBy g u reqs (serve (handle uid req) w).1 (handle-IsOwnedBy g u uid req w o h.0) h.1
