-- ===== src/Room/Handler/Removal.antt =====
-- What removing and leaving do: internal/room/handler.go `removeMember` and `exitGroup`.
use chatroom_server.Base.{
  suc, not, ◌==◌, ℕ, ◌≡◌, ◌≢◌, Bool, true, false, Option, none, some, find?, arith,
}
use chatroom_server.Base.Rows.{delete_where}
use chatroom_server.MemberCache.{MemberCache}
use chatroom_server.Http.{Response}
use chatroom_server.World.{World, serve}
use chatroom_server.Room.Model.{Member, role_owner}
use chatroom_server.Room.Role.{can_remove_member}
use chatroom_server.Room.Store
use chatroom_server.Room.Rows.{is_member}
use chatroom_server.Room.Handler.{remove_member, exit_group}

-- The caller's row and the target's row allow the removal.
abbrev pub may_remove : Option Member → Option Member → Bool
may_remove none t = false
may_remove (some a) none = false
may_remove (some a) (some t) = can_remove_member a.role t.role

abbrev pub may_leave : Option Member → Bool
may_leave none = false
may_leave (some m) = not (m.role == role_owner)

module _ {C : MemberCache} (actor g v : ℕ) (w : World C) where
  abbrev pub removed : Response × World C
  removed = serve (remove_member actor (some g) (some v)) w

  abbrev pub left : Response × World C
  left = serve (exit_group v (some g)) w

  -- A removal that succeeds was allowed by the two rows that the table has when the request comes in.
  -- It deletes the target's row of that group, and changes nothing else in the tables.
  pub remove_member-deletes :
      removed.0.status ≡ 200
      → let t = w.session.tables in
        (may_remove (find? (is_member g actor) t.members) (find? (is_member g v) t.members) ≡ true)
        × (removed.1.session.tables ≡ record t { members = delete_where (is_member g v) t.members })
  unfolding remove_member Store.get_member Store.remove_member
  remove_member-deletes h = ground arith

  -- A removal that is refused changes no table and does not touch the cache.
  pub remove_member-refused :
      removed.0.status ≢ 200
      → (removed.1.session.tables ≡ w.session.tables) × (removed.1.cache ≡ w.cache)
  unfolding remove_member Store.get_member Store.remove_member
  remove_member-refused h = ground arith

  -- With no failing statement an allowed removal succeeds.
  pub remove_member-succeeds :
      ((n : ℕ) → w.session.fails n ≡ false)
      → may_remove
          (find? (is_member g actor) w.session.tables.members)
          (find? (is_member g v) w.session.tables.members)
        ≡ true
      → removed.0.status ≡ 200
  unfolding remove_member Store.get_member Store.remove_member
  remove_member-succeeds up h =
      ground (arith, up w.session.tick, up (suc w.session.tick), up (suc (suc w.session.tick)))

  -- Leaving succeeds only for a member that is not the owner, and deletes the caller's row of that
  -- group and nothing else.
  pub exit_group-deletes :
      left.0.status ≡ 200
      → let t = w.session.tables in
        (may_leave (find? (is_member g v) t.members) ≡ true)
        × (left.1.session.tables ≡ record t { members = delete_where (is_member g v) t.members })
  unfolding exit_group Store.get_member Store.remove_member
  exit_group-deletes h = ground arith
