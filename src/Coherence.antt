-- ===== src/Coherence.antt =====
-- The member cache against the table of members: `groupMemberUIDs` and `canPost` of
-- internal/message/handler.go, and the invalidations of internal/room/handler.go.
pub mod Post
pub mod Push
pub mod Invalidation
use chatroom_server.Base.{
  ℕ, ◌<◌, ◌≡◌, ◌∙◌, refl, Bool, true, false, ◌&&◌, ◌||◌, none, some, List, [], ◌∷◌, map, ◌==◌,
  if◌then◌else◌, filter, find?, any, contains, arith, sym, inl, inr,
}
use chatroom_server.Base.Sort.{sort_by, any-sort_by}
use chatroom_server.Action.{Result, ok, err}
use chatroom_server.Db.{DbError}
use chatroom_server.MemberCache.{MemberCache, IsCache, Cached-cases, hit, miss, cache_error}
use chatroom_server.World.{World}
use chatroom_server.Room.Model.{Room, Member, is_hot, is_group}
use chatroom_server.Room.Role.{is_participant}
use chatroom_server.Room.Store
use chatroom_server.Room.Rows.{is_member, in_group, is_friend_of, member_before}
use chatroom_server.Message.Handler.{
  group_member_cache_ttl, member_uids, group_member_uids, has_uid,
}

-- Every entry of the cache is that of a room which has been created, and lists the members of its
-- group, in any order.
pub record IsCoherent (C : MemberCache) (w : World C) : Type 0 where
  pub known : (g : ℕ) (us : List ℕ) → C.holds w.cache g ≡ some us → g < w.session.tables.next.room
  pub exact :
      (g v : ℕ) (us : List ℕ)
      → C.holds w.cache g ≡ some us
      → contains us v ≡ any (is_member g v) w.session.tables.members

contains-member_uids :
    (g v : ℕ) (ms : List Member)
    → contains (member_uids (filter (in_group g) ms)) v ≡ any (is_member g v) ms
contains-member_uids g v [] = refl
contains-member_uids g v (m ∷ ms) = ground (arith, contains-member_uids g v ms)

contains-any : (v : ℕ) (ms : List Member) → contains (member_uids ms) v ≡ any (λ m. m.uid == v) ms
contains-any v [] = refl
contains-any v (m ∷ ms) = ground (arith, contains-any v ms)

-- What `ListMembers` lists, as a set of uids.
pub listed :
    (g v : ℕ) (ms : List Member)
    → contains (member_uids (sort_by member_before (filter (in_group g) ms))) v
      ≡ any (is_member g v) ms
listed g v ms =
    contains-any v (sort_by member_before (filter (in_group g) ms))
    ∙ any-sort_by member_before (λ m. m.uid == v) (filter (in_group g) ms)
    ∙ sym (contains-any v (filter (in_group g) ms))
    ∙ contains-member_uids g v ms

module _ {C : MemberCache} (lawful : IsCache C) (w : World C) (fresh : IsCoherent C w) (g : ℕ) where
  -- A list that `groupMemberUIDs` returns, from the cache or not, is that of the group's members.
  pub group_member_uids-exact :
      (v : ℕ) (us : List ℕ)
      → (group_member_uids g w).0 ≡ ok us
      → contains us v ≡ any (is_member g v) w.session.tables.members
  unfolding group_member_uids Store.list_members
  group_member_uids-exact v us h =
      ground (
        arith,
        lawful.get-hit w.cache g us,
        fresh.exact g v us,
        listed g v w.session.tables.members,
      )

  -- It changes no table, and the cache stays in step.
  pub group_member_uids-tables : (group_member_uids g w).1.session.tables ≡ w.session.tables
  unfolding group_member_uids Store.list_members
  group_member_uids-tables = ground arith

  rows : List ℕ
  rows = member_uids (sort_by member_before (filter (in_group g) w.session.tables.members))

  pub group_member_uids-IsCoherent :
      g < w.session.tables.next.room → IsCoherent C (group_member_uids g w).1
  unfolding group_member_uids Store.list_members rows
  group_member_uids-IsCoherent old = record {
    known = λ k us h. ground (
      arith,
      lawful.holds-get w.cache g k us,
      lawful.holds-set (C.get w.cache g).1 g group_member_cache_ttl k rows us,
      lawful.holds-set w.cache g group_member_cache_ttl k rows us,
      fresh.known k us,
    );
    exact = λ k v us h. ground (
      arith,
      lawful.holds-get w.cache g k us,
      lawful.holds-set (C.get w.cache g).1 g group_member_cache_ttl k rows us,
      lawful.holds-set w.cache g group_member_cache_ttl k rows us,
      fresh.exact k v us,
      listed g v w.session.tables.members,
    );
  }

  -- A listed caller is a member.
  pub has_uid-member :
      (v : ℕ) (r : Result DbError (List ℕ))
      → (group_member_uids g w).0 ≡ r
      → has_uid v r ≡ true
      → any (is_member g v) w.session.tables.members ≡ true
  has_uid-member v (ok us) e h = sym (group_member_uids-exact v us e) ∙ h
  has_uid-member v (err x) e h = cc

  -- With the database up every member is listed.
  pub has_uid-eq-member :
      (v : ℕ)
      → w.session.fails w.session.tick ≡ false
      → has_uid v (group_member_uids g w).0 ≡ any (is_member g v) w.session.tables.members
  unfolding group_member_uids Store.list_members
  has_uid-eq-member v up = elim (Cached-cases (C.get w.cache g).0) [
    | inl (us, e) ↦ ground (
      arith,
      e,
      lawful.get-hit w.cache g us e,
      fresh.exact g v us,
      listed g v w.session.tables.members,
    )
    | inr (inl e) ↦ ground (arith, e, listed g v w.session.tables.members)
    | inr (inr e) ↦ ground (arith, e, listed g v w.session.tables.members)
  ]
