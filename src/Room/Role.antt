-- ===== src/Room/Role.antt =====
-- internal/room/role.go: who may interact with a room, and who may change its membership.
use chatroom_server.Base.{ℕ, Bool, true, false, not, ◌||◌, ◌==◌, if◌then◌else◌}
use chatroom_server.Action.{Result, ok, err}
use chatroom_server.Db.{Session}
use chatroom_server.Room.Model.{
  Room, Role, Friend, is_hot, is_group, role_owner, role_admin, role_member,
}
use chatroom_server.Room.Store.{get_member, get_friend_by_room_id}

-- `err == nil`
abbrev pub is_ok : {E A : Type 0} → Result E A → Bool
is_ok (ok a) = true
is_ok (err e) = false

abbrev pub is_one_of : {E : Type 0} → ℕ → Result E Friend → Bool
is_one_of uid (ok f) = f.uid1 == uid || f.uid2 == uid
is_one_of uid (err e) = false

-- `IsParticipant`, with the session after the queries that it makes.
unfoldable pub is_participant : Room → ℕ → Session → Bool × Session
is_participant rm uid s =
    if is_hot rm
    then (true, s)
    else if is_group rm
    then (let (r, s') = get_member rm.id uid s in (is_ok r, s'))
    else let (r, s') = get_friend_by_room_id rm.id s in (is_one_of uid r, s')

-- `CanRemoveMember`
unfoldable pub can_remove_member : Role → Role → Bool
can_remove_member actor target =
    if actor == role_owner
    then not (target == role_owner)
    else if actor == role_admin
    then target == role_member
    else false

-- `CanSetAdmin`
unfoldable pub can_set_admin : Role → Bool
can_set_admin actor = actor == role_owner

-- `CanDismissGroup`
unfoldable pub can_dismiss_group : Role → Bool
can_dismiss_group actor = actor == role_owner
