-- ===== src/Room/Rows.antt =====
-- internal/room/store.go: the tests and the changes of single rows that its statements are made of.
use chatroom_server.Base.{
  ℕ, Bool, ◌&&◌, ◌||◌, Option, none, some, List, [], ◌∷◌, ltb, leb, ◌==◌, if◌then◌else◌,
}
use chatroom_server.Action.{Result, ok, err}
use chatroom_server.Db.{Contact, DbError, not_found}
use chatroom_server.Room.Model.{Room, Role, Group, Friend, Member}

-- The tests of the `WHERE` clauses.
abbrev pub is_member : ℕ → ℕ → Member → Bool
is_member group_id uid m = m.group_id == group_id && m.uid == uid

abbrev pub in_group : ℕ → Member → Bool
in_group group_id m = m.group_id == group_id

abbrev pub has_id : ℕ → Room → Bool
has_id room_id r = r.id == room_id

abbrev pub is_group_of : ℕ → Group → Bool
is_group_of room_id g = g.room_id == room_id

abbrev pub is_friend_of : ℕ → Friend → Bool
is_friend_of room_id f = f.room_id == room_id

abbrev pub is_pair : ℕ → ℕ → Friend → Bool
is_pair uid1 uid2 f = f.uid1 == uid1 && f.uid2 == uid2

abbrev pub is_contact : ℕ → ℕ → Contact → Bool
is_contact uid room_id c = c.uid == uid && c.room_id == room_id

abbrev pub with_role : Role → Member → Member
with_role role m = record m { role = role }

-- ORDER BY role, id
abbrev pub member_before : Member → Member → Bool
member_before a b = ltb a.role b.role || (a.role == b.role && leb a.id b.id)

-- `GetContext` of one row: `sql.ErrNoRows` if there is none, which the caller reports as `ErrNotFound`.
abbrev pub one_row : {A : Type 0} → Option A → Result DbError A
one_row none = err not_found
one_row (some a) = ok a

-- One row of INSERT … ON DUPLICATE KEY UPDATE, on the unique key uk_uid_room.
abbrev pub upsert_contact : Contact → (Contact → Contact) → List Contact → List Contact
upsert_contact new change [] = new ∷ []
upsert_contact new change (c ∷ cs) =
    let rest = upsert_contact new change cs in
    if is_contact new.uid new.room_id c then change c ∷ cs else c ∷ rest
