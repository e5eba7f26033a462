-- ===== src/Room/Owner.antt =====
-- Where a group's owner comes from, and how it is lost: internal/room/handler.go `createGroup` and
-- `setAdmin`.
use chatroom_server.Base.{
  ◌==◌, ℕ, ◌≡◌, Bool, false, Option, none, some, find?, arith, if◌then◌else◌,
}
use mathlib.Core.Option
use chatroom_server.MemberCache.{MemberCache}
use chatroom_server.World.{World, serve}
use chatroom_server.Http.{Response, room_id}
use chatroom_server.Room.Model.{Room, role_admin, role_member, type_group, hot_no}
use chatroom_server.Room.Role.{can_set_admin}
use chatroom_server.Room.Store
use chatroom_server.Room.Rows.{is_member, has_id}
use chatroom_server.Room.Store.Members.{find-set_role, find-same}
use chatroom_server.Room.Handler
use chatroom_server.Room.Handler.{CreateGroupRequest}
use chatroom_server.Room.Ownership.{IsOwnedBy, is_owner}

abbrev pub type_and_hot : Room → ℕ × ℕ
type_and_hot r = (r.type, r.hot_flag)

module _ {C : MemberCache} (uid : ℕ) (w : World C) where
  abbrev pub new : ℕ
  new = w.session.tables.next.room

  abbrev pub created : Option CreateGroupRequest → Response × World C
  created body = serve (Handler.create_group uid body) w

  -- A successful creation, where no member row names the next room yet, answers with the id of a new
  -- group room that is not hot; the caller is its only owner, and no member of another group changes.
  pub create_group-IsOwnedBy :
      (body : Option CreateGroupRequest)
      → ((v : ℕ) → find? (is_member new v) w.session.tables.members ≡ none)
      → (created body).0.status ≡ 200
      → let t' = (created body).1.session.tables in
        ((created body).0.body ≡ room_id new)
        × IsOwnedBy new uid t'
        × (Option.map type_and_hot (find? (has_id new) t'.rooms) ≡ some (type_group, hot_no))
        × ((g v : ℕ)
            → find? (is_member g v) t'.members
              ≡ find? (is_member g v) (if g == new then t'.members else w.session.tables.members))
  unfolding Handler.create_group Store.create_group_room
  create_group-IsOwnedBy body fresh h = (
    ground arith,
    record { old = ground arith; one_owner = λ v. ground (arith, fresh v) },
    ground arith,
    λ g v. ground arith,
  )

  -- In a group with one owner, the owner's own request to become an admin or a plain member, once it
  -- succeeds, leaves the group with no owner.
  pub set_admin-no_owner :
      (g : ℕ) (b : Bool)
      → IsOwnedBy g uid w.session.tables
      → (serve (Handler.set_admin uid (some g) (some uid) (some b)) w).0.status ≡ 200
      → (v : ℕ)
      → is_owner (
          find?
            (is_member g v)
            (serve (Handler.set_admin uid (some g) (some uid) (some b)) w).1.session.tables.members)
        ≡ false
  unfolding Handler.set_admin Store.get_member Store.set_role can_set_admin
  set_admin-no_owner g b o h v = ground (
    arith,
    o.one_owner v,
    find-set_role g uid g v (if b then role_admin else role_member) w.session.tables.members,
    find-same g uid g v w.session.tables.members,
  )
