-- ===== src/Coherence/Post.antt =====
-- Who may post: `canPost` of internal/message/handler.go against `IsParticipant` of
-- internal/room/role.go.
use chatroom_server.Base.{
  ℕ, ◌<◌, ◌≡◌, Bool, true, false, ◌||◌, Option, none, some, ◌==◌, if◌then◌else◌, find?, any, arith,
  refl,
}
use chatroom_server.Base.Rows.{any-find?, find?-any}
use chatroom_server.Db.{Tables}
use chatroom_server.MemberCache.{MemberCache, IsCache}
use chatroom_server.World.{World}
use chatroom_server.Room.Model.{Room, Friend, is_hot, is_group}
use chatroom_server.Room.Role.{is_participant}
use chatroom_server.Room.Store
use chatroom_server.Room.Rows.{is_member, is_friend_of}
use chatroom_server.Message.Handler.{group_member_uids, can_post}
use chatroom_server.Coherence.{
  IsCoherent, has_uid-member, has_uid-eq-member, group_member_uids-tables,
  group_member_uids-IsCoherent,
}

abbrev pub has_party : ℕ → Option Friend → Bool
has_party uid none = false
has_party uid (some f) = f.uid1 == uid || f.uid2 == uid

-- The caller may interact with the room: the room is hot, or it is a group that the caller is a member
-- of, or a conversation of the caller.
abbrev pub participates : Tables → Room → ℕ → Bool
participates t rm uid =
    if is_hot rm
    then true
    else if is_group rm
    then any (is_member rm.id uid) t.members
    else has_party uid (find? (is_friend_of rm.id) t.friends)

module _ {C : MemberCache} (lawful : IsCache C) (w : World C) (fresh : IsCoherent C w) (rm : Room)
    (uid : ℕ) where
  -- Where the cache is in step with the tables, `canPost` admits only a participant of the room,
  -- whatever statements and cache calls fail.
  pub can_post-participates :
      (can_post rm uid w).0 ≡ true → participates w.session.tables rm uid ≡ true
  unfolding can_post Store.get_friend_by_room_id
  can_post-participates h =
      ground (arith, has_uid-member lawful w fresh rm.id uid (group_member_uids rm.id w).0 refl)

  pub can_post-tables : (can_post rm uid w).1.session.tables ≡ w.session.tables
  unfolding can_post Store.get_friend_by_room_id
  can_post-tables = ground (arith, group_member_uids-tables lawful w fresh rm.id)

  pub can_post-IsCoherent : rm.id < w.session.tables.next.room → IsCoherent C (can_post rm uid w).1
  unfolding can_post Store.get_friend_by_room_id
  can_post-IsCoherent old =
      let after = group_member_uids-IsCoherent lawful w fresh rm.id old in
      record {
        known = λ g us h. ground (arith, fresh.known g us, after.known g us);
        exact = λ g v us h. ground (arith, fresh.exact g v us, after.exact g v us);
      }

  -- Where the cache is in step and no statement fails, `canPost`, which may answer from the cache, decides what
  -- `IsParticipant`, which always asks the database, decides.
  pub can_post-eq-is_participant :
      ((n : ℕ) → w.session.fails n ≡ false)
      → (can_post rm uid w).0 ≡ (is_participant rm uid w.session).0
  unfolding can_post is_participant Store.get_friend_by_room_id Store.get_member
  can_post-eq-is_participant up = ground (
    arith,
    up w.session.tick,
    has_uid-eq-member lawful w fresh rm.id uid,
    any-find? (is_member rm.id uid) w.session.tables.members,
    find?-any (is_member rm.id uid) w.session.tables.members,
  )
