-- ===== src/Room/RoomList/Counts.antt =====
-- The unread counts in the list of a user: internal/room/store.go `ListRoomsForUser`.
use chatroom_server.Base.{
  ℕ, String, ◌≡◌, refl, Bool, true, false, Option, List, [], ◌∷◌, map, ◌==◌, filter, find?, any,
  All, arith,
}
use mathlib.Core.List.{flat_map}
use chatroom_server.Base.Joins.{All-append, All-flat_map, All-of}
use chatroom_server.Base.Rows.{IsUnique}
use chatroom_server.Base.Sort.{sort_by, All-sort_by}
use chatroom_server.Action.{ok}
use chatroom_server.Db.{Contact, Session, Tables}
use chatroom_server.Message.Model.{Message}
use chatroom_server.Room.Model.{Room, RoomSummary}
use chatroom_server.Room.Rows.{is_contact, has_id, is_group_of}
use chatroom_server.Room.Store.Unread.{unread}
use chatroom_server.Room.RoomList.{
  is_party, peer_of, more_recent, room_rows, member_rows, friend_rows, summaries,
  list_rooms_for_user, left_join, summary, is_last_of,
}

-- The unique key uk_uid_room
abbrev pub same_contact : Contact → Contact → Bool
same_contact a b = is_contact a.uid a.room_id b

filter-none {ℓ} : {A : Type ℓ} (p : A → Bool) (xs : List A) → any p xs ≡ false → filter p xs ≡ []
filter-none p [] h = refl
filter-none p (x ∷ xs) h = ground (arith, filter-none p xs)

same_key :
    (uid k : ℕ) (c : Contact) (cs : List Contact)
    → is_contact uid k c ≡ true
    → any (same_contact c) cs ≡ any (is_contact uid k) cs
same_key uid k c [] h = refl
same_key uid k c (d ∷ cs) h = ground (arith, same_key uid k c cs)

-- On a unique key a left join finds the one row, or none.
one_contact :
    (uid k : ℕ) (cs : List Contact)
    → IsUnique same_contact cs
    → left_join (is_contact uid k) cs ≡ find? (is_contact uid k) cs ∷ []
one_contact uid k [] u = refl
one_contact uid k (c ∷ cs) u =
    ground (arith, one_contact uid k cs u.1, same_key uid k c cs, filter-none (is_contact uid k) cs)

module _ (t : Tables) (uid : ℕ) (u : IsUnique same_contact t.contacts) where
  -- The row shows the count of its room.
  abbrev pub IsCounted : RoomSummary → Type 0
  IsCounted row = row.unread_count ≡ unread t.contacts uid row.room_id

  room_rows-IsCounted :
      (name : String) (peer : ℕ) (r : Room) → All IsCounted (room_rows t uid name peer r)
  unfolding room_rows
  room_rows-IsCounted name peer r =
      All-flat_map IsCounted
        (λ m. map (summary r name peer m) (left_join (is_contact uid r.id) t.contacts))
        (left_join (is_last_of r) t.messages)
        (All-of _ (λ m. rw (one_contact uid r.id t.contacts u) (counted m))
          (left_join (is_last_of r) t.messages))
    where
      counted :
          (m : Option Message)
          → All IsCounted
              (map (summary r name peer m) (find? (is_contact uid r.id) t.contacts ∷ []))
      counted m = (ground arith, tt)

  pub summaries-IsCounted : All IsCounted (summaries t uid)
  unfolding summaries member_rows friend_rows
  summaries-IsCounted =
      All-append IsCounted (flat_map (member_rows t uid) (filter (λ m. m.uid == uid) t.members))
        (flat_map (friend_rows t uid) (filter (is_party uid) t.friends))
        (All-flat_map IsCounted (member_rows t uid) (filter (λ m. m.uid == uid) t.members) (
          All-of _
            (λ gm. All-flat_map IsCounted _ (filter (has_id gm.group_id) t.rooms) (
              All-of _
                (λ r. All-flat_map IsCounted _ (filter (is_group_of r.id) t.groups) (
                  All-of _ (λ g. room_rows-IsCounted g.name 0 r)
                    (filter (is_group_of r.id) t.groups)))
                (filter (has_id gm.group_id) t.rooms)))
            (filter (λ m. m.uid == uid) t.members)))
        (All-flat_map IsCounted (friend_rows t uid) (filter (is_party uid) t.friends) (
          All-of _
            (λ f. All-flat_map IsCounted _ (filter (has_id f.room_id) t.rooms) (
              All-of _ (λ r. room_rows-IsCounted "" (peer_of uid f) r)
                (filter (has_id f.room_id) t.rooms)))
            (filter (is_party uid) t.friends)))

-- Where the contacts have distinct keys, each row of the list shows the unread count that the table has
-- for the user in that room, or 0.
pub list_rooms_for_user-unread :
    (uid : ℕ) (s : Session) (rows : List RoomSummary)
    → IsUnique same_contact s.tables.contacts
    → (list_rooms_for_user uid s).0 ≡ ok rows
    → All (λ row. row.unread_count ≡ unread s.tables.contacts uid row.room_id) rows
unfolding list_rooms_for_user
list_rooms_for_user-unread uid s rows u h =
    let e : sort_by more_recent (summaries s.tables uid) ≡ rows = ground arith in
    rw e at (
      All-sort_by more_recent (IsCounted s.tables uid u) (summaries s.tables uid)
        (summaries-IsCounted s.tables uid u))
