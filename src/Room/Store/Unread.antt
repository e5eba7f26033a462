-- ===== src/Room/Store/Unread.antt =====
-- The unread counts: `BumpUnread` and `ResetUnread` of internal/room/store.go.
use chatroom_server.Base.{
  ℕ, ◌+◌, ◌≡◌, false, ◌&&◌, Option, none, some, List, [], ◌∷◌, ◌==◌, if◌then◌else◌, find?, count,
  arith,
}
use chatroom_server.Db.{Contact, Session}
use chatroom_server.Room.Store.{bump_one, bump_all, bump_unread, reset_unread}
use chatroom_server.Room.Rows.{is_contact, upsert_contact}

abbrev pub unread_of : Option Contact → ℕ
unread_of none = 0
unread_of (some c) = c.unread_count

-- `COALESCE(c.unread_count, 0)` of the row of the user in the room.
abbrev pub unread : List Contact → ℕ → ℕ → ℕ
unread cs uid room_id = unread_of (find? (is_contact uid room_id) cs)

unread-bump_one :
    (now g uid u k : ℕ) (cs : List Contact)
    → unread (bump_one now g cs uid) u k ≡ unread cs u k + (if k == g && uid == u then 1 else 0)
unread-bump_one now g uid u k [] = ground arith
unread-bump_one now g uid u k (c ∷ cs) = ground (arith, unread-bump_one now g uid u k cs)

unread-bump_all :
    (now g u k : ℕ) (uids : List ℕ) (cs : List Contact)
    → unread (bump_all now g uids cs) u k ≡ unread cs u k + (if k == g then count u uids else 0)
unfolding bump_all
unread-bump_all now g u k [] cs = ground arith
unread-bump_all now g u k (uid ∷ uids) cs = ground (
  arith,
  unread-bump_all now g u k uids (bump_one now g cs uid),
  unread-bump_one now g uid u k cs,
)

unread-reset :
    (now g uid u k : ℕ) (cs : List Contact)
    → unread
        (upsert_contact
          (record { uid = uid; room_id = g; active_time = now; unread_count = 0 })
          (λ c. record c { unread_count = 0 })
          cs)
        u
        k
      ≡ (if k == g && uid == u then 0 else unread cs u k)
unread-reset now g uid u k [] = ground arith
unread-reset now g uid u k (c ∷ cs) = ground (arith, unread-reset now g uid u k cs)

-- `BumpUnread` adds to a user's count in the room as often as the user is listed, and to nothing else;
-- a refused statement adds nothing.
pub unread-bump_unread :
    (g u k : ℕ) (uids : List ℕ) (s : Session)
    → let (r, s') = bump_unread g uids s in
      unread s'.tables.contacts u k
      ≡ unread s.tables.contacts u k
        + (if s.fails s.tick then 0 else if k == g then count u uids else 0)
unfolding bump_unread
unread-bump_unread g u k [] s = ground arith
unread-bump_unread g u k (uid ∷ uids) s =
    ground (arith, unread-bump_all (s.clock s.tick) g u k (uid ∷ uids) s.tables.contacts)

-- Where its statement does not fail, `ResetUnread` sets the count of the user in the room to 0, and no other.
pub unread-reset_unread :
    (g uid u k : ℕ) (s : Session)
    → s.fails s.tick ≡ false
    → unread (reset_unread uid g s).1.tables.contacts u k
      ≡ (if k == g && uid == u then 0 else unread s.tables.contacts u k)
unfolding reset_unread
unread-reset_unread g uid u k s up =
    ground (arith, unread-reset (s.clock s.tick) g uid u k s.tables.contacts)
