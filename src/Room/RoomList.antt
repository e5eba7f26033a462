-- ===== src/Room/RoomList.antt =====
-- internal/room/store.go: `ListRoomsForUser`. A JOIN takes the rows of a table that fit, and a LEFT
-- JOIN takes none, once, where no row fits.
pub mod Rooms
pub mod Counts
use mathlib.Core.List.{flat_map}
use chatroom_server.Base.{
  ℕ, String, Bool, ◌&&◌, ◌||◌, Option, none, some, List, [], ◌∷◌, ◌++◌, map, leb, ◌==◌,
  if◌then◌else◌, filter,
}
use chatroom_server.Base.Sort.{sort_by}
use chatroom_server.Action.{ok}
use chatroom_server.Db.{Contact, Tables, Sql, query}
use chatroom_server.Message.Model.{Message}
use chatroom_server.Room.Model.{Room, Group, Friend, Member, RoomSummary}
use chatroom_server.Room.Rows.{is_contact, has_id, is_group_of}

module _ {ℓ} {A : Type ℓ} where
  abbrev pub or_null : List A → List (Option A)
  or_null [] = none ∷ []
  or_null (x ∷ xs) = map some (x ∷ xs)

  abbrev pub left_join : (A → Bool) → List A → List (Option A)
  left_join p xs = or_null (filter p xs)

abbrev pub is_party : ℕ → Friend → Bool
is_party uid f = f.uid1 == uid || f.uid2 == uid

abbrev pub is_last_of : Room → Message → Bool
is_last_of r m = m.id == r.last_msg_id

abbrev pub content_of : Option Message → Option String
content_of none = none
content_of (some m) = some m.content

abbrev pub time_of : Option Message → Option ℕ
time_of none = none
time_of (some m) = some m.create_time

-- COALESCE(c.unread_count, 0)
abbrev pub unread_or_zero : Option Contact → ℕ
unread_or_zero none = 0
unread_or_zero (some c) = c.unread_count

abbrev pub summary : Room → String → ℕ → Option Message → Option Contact → RoomSummary
summary r name peer m c = record {
  room_id = r.id;
  type = r.type;
  name = name;
  peer_uid = peer;
  active_time = r.active_time;
  last_message = content_of m;
  last_message_at = time_of m;
  unread_count = unread_or_zero c;
}

-- The rows of one room: its last message and its contact are joined from the left.
unfoldable pub room_rows : Tables → ℕ → String → ℕ → Room → List RoomSummary
unfolding flat_map
room_rows t uid name peer r =
    flat_map (λ m. map (summary r name peer m) (left_join (is_contact uid r.id) t.contacts))
      (left_join (is_last_of r) t.messages)

-- The first SELECT, for one row of group_member.
unfoldable pub member_rows : Tables → ℕ → Member → List RoomSummary
unfolding room_rows flat_map
member_rows t uid gm =
    flat_map (λ r. flat_map (λ g. room_rows t uid g.name 0 r) (filter (is_group_of r.id) t.groups))
      (filter (has_id gm.group_id) t.rooms)

-- CASE WHEN f.uid1 = ? THEN f.uid2 ELSE f.uid1 END
abbrev pub peer_of : ℕ → Friend → ℕ
peer_of uid f = if f.uid1 == uid then f.uid2 else f.uid1

-- The second SELECT, for one row of room_friend.
unfoldable pub friend_rows : Tables → ℕ → Friend → List RoomSummary
unfolding room_rows flat_map
friend_rows t uid f =
    flat_map (λ r. room_rows t uid "" (peer_of uid f) r) (filter (has_id f.room_id) t.rooms)

-- UNION ALL
unfoldable pub summaries : Tables → ℕ → List RoomSummary
unfolding member_rows friend_rows flat_map
summaries t uid =
    flat_map (member_rows t uid) (filter (λ m. m.uid == uid) t.members)
    ++ flat_map (friend_rows t uid) (filter (is_party uid) t.friends)

-- ORDER BY active_time DESC
abbrev pub more_recent : RoomSummary → RoomSummary → Bool
more_recent a b = leb b.active_time a.active_time

-- `ListRoomsForUser`
unfoldable pub list_rooms_for_user : ℕ → Sql (List RoomSummary)
unfolding summaries
list_rooms_for_user uid s = query s λ t. ok (sort_by more_recent (summaries t uid))
