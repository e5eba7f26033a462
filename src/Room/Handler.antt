-- ===== src/Room/Handler.antt =====
-- internal/room/handler.go. A request is given by the caller's uid, which the middleware put into
-- the context, by what `strconv.ParseInt` made of each path value, and by the decoded body; `none` stands
-- for a parse error. An id is a natural number: the columns are BIGINT UNSIGNED.
pub mod Removal
use chatroom_server.Base.{
  ℕ, String, Bool, true, false, not, ◌||◌, Option, none, some, ◌==◌, if◌then◌else◌,
}
use chatroom_server.Action.{
  Result, ok, err, ◌>>=◌, ◌>>◌, pure, raise_if, or_raise, or_else_raise, attempt,
}
use chatroom_server.MemberCache.{MemberCache}
use chatroom_server.World.{World, Handler, sql}
use chatroom_server.Http.{
  Response, write_json, write_error, status_ok, bad_request, forbidden, status_not_found,
  internal_error, done, room_id, rooms, members,
}
use chatroom_server.Room.Model.{Member, Role, role_owner, role_admin, role_member}
use chatroom_server.Room.Role.{can_remove_member, can_set_admin}
use chatroom_server.Room.Store
use chatroom_server.Room.RoomList.{list_rooms_for_user}
use text.Mathlib.Text.{◌==◌ as str_eq}

pub record CreateGroupRequest : Type 0 where
  pub name : String
  pub avatar : String

-- `err != nil || req.UID == 0`
abbrev pub uid_of : Option ℕ → Option ℕ
uid_of none = none
uid_of (some uid) = if uid == 0 then none else some uid

-- `err != nil || req.Name == ""`
abbrev pub named : Option CreateGroupRequest → Option CreateGroupRequest
named none = none
named (some req) = if str_eq req.name "" then none else some req

-- `err != nil || !CanSetAdmin(actor.Role)`
abbrev pub may_set_admin : {E : Type 0} → Result E Member → Bool
may_set_admin (ok actor) = can_set_admin actor.role
may_set_admin (err e) = false

module _ {C : MemberCache} where
  -- `invalidateCache`
  abbrev pub invalidate_cache : ℕ → Handler C (Unit {0})
  invalidate_cache group_id w =
      (ok tt, if C.enabled then record w { cache = (C.invalidate w.cache group_id).1 } else w)

  -- `markRead`
  unfoldable pub mark_read : ℕ → Option ℕ → Handler C Response
  mark_read uid path_room = do
    room ← or_raise path_room (write_error bad_request "invalid roomID")
    or_else_raise (sql (Store.reset_unread uid room))
        (write_error internal_error "failed to mark room as read")
    pure (write_json status_ok done)

  -- `listRooms`
  unfoldable pub list_rooms : ℕ → Handler C Response
  list_rooms uid = do
    rows ←
        or_else_raise (sql (list_rooms_for_user uid))
          (write_error internal_error "failed to list rooms")
    pure (write_json status_ok (rooms rows))

  -- `createFriendRoom`
  unfoldable pub create_friend_room : ℕ → Option ℕ → Handler C Response
  create_friend_room uid body = do
    peer ← or_raise (uid_of body) (write_error bad_request "uid is required")
    raise_if (peer == uid) (write_error bad_request "cannot start a DM with yourself")
    room ←
        or_else_raise (sql (Store.get_or_create_friend_room uid peer))
          (write_error internal_error "failed to start conversation")
    pure (write_json status_ok (room_id room))

  -- `createGroup`
  unfoldable pub create_group : ℕ → Option CreateGroupRequest → Handler C Response
  create_group uid body = do
    req ← or_raise (named body) (write_error bad_request "name is required")
    room ←
        or_else_raise (sql (Store.create_group_room uid req.name req.avatar))
          (write_error internal_error "failed to create group")
    pure (write_json status_ok (room_id room))

  -- `addMember`
  unfoldable pub add_member : ℕ → Option ℕ → Option ℕ → Handler C Response
  add_member actor_uid path_room body = do
    group_id ← or_raise path_room (write_error bad_request "invalid roomID")
    uid ← or_raise (uid_of body) (write_error bad_request "uid is required")
    or_else_raise (sql (Store.get_member group_id actor_uid))
        (write_error forbidden "not a member of this group")
    or_else_raise (sql (Store.add_member group_id uid role_member))
        (write_error internal_error "failed to add member")
    invalidate_cache group_id
    pure (write_json status_ok done)

  -- `removeMember`
  unfoldable pub remove_member : ℕ → Option ℕ → Option ℕ → Handler C Response
  remove_member actor_uid path_room path_uid = do
    group_id ← or_raise path_room (write_error bad_request "invalid roomID")
    target_uid ← or_raise path_uid (write_error bad_request "invalid uid")
    actor ←
        or_else_raise (sql (Store.get_member group_id actor_uid))
          (write_error forbidden "not a member of this group")
    target ←
        or_else_raise (sql (Store.get_member group_id target_uid))
          (write_error status_not_found "target is not a member")
    raise_if (not (can_remove_member actor.role target.role))
        (write_error forbidden "not allowed to remove this member")
    or_else_raise (sql (Store.remove_member group_id target_uid))
        (write_error internal_error "failed to remove member")
    invalidate_cache group_id
    pure (write_json status_ok done)

  -- `exitGroup`
  unfoldable pub exit_group : ℕ → Option ℕ → Handler C Response
  exit_group uid path_room = do
    group_id ← or_raise path_room (write_error bad_request "invalid roomID")
    member ←
        or_else_raise (sql (Store.get_member group_id uid))
          (write_error forbidden "not a member of this group")
    raise_if (member.role == role_owner) (
        write_error forbidden
          "owner must transfer ownership or dismiss the group instead of exiting")
    or_else_raise (sql (Store.remove_member group_id uid))
        (write_error internal_error "failed to exit group")
    invalidate_cache group_id
    pure (write_json status_ok done)

  -- `setAdmin`
  unfoldable pub set_admin : ℕ → Option ℕ → Option ℕ → Option Bool → Handler C Response
  set_admin actor_uid path_room path_uid body = do
    group_id ← or_raise path_room (write_error bad_request "invalid roomID")
    target_uid ← or_raise path_uid (write_error bad_request "invalid uid")
    is_admin ← or_raise body (write_error bad_request "invalid request body")
    actor ← attempt (sql (Store.get_member group_id actor_uid))
    raise_if (not (may_set_admin actor)) (write_error forbidden "only the owner can set admins")
    or_else_raise
        (sql (Store.set_role group_id target_uid (if is_admin then role_admin else role_member)))
        (write_error internal_error "failed to update role")
    pure (write_json status_ok done)

  -- `listMembers`
  unfoldable pub list_members : Option ℕ → Handler C Response
  list_members path_room = do
    group_id ← or_raise path_room (write_error bad_request "invalid roomID")
    rows ←
        or_else_raise (sql (Store.list_members group_id))
          (write_error internal_error "failed to list members")
    pure (write_json status_ok (members rows))
