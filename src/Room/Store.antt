-- ===== src/Room/Store.antt =====
-- internal/room/store.go: `SQLStore`. A statement is what its SQL says on the tables of Db; the unique
-- keys are those of internal/db/migrations/000001_init.up.sql.
pub mod Members
pub mod Create
pub mod FriendRoom
pub mod Unread
use chatroom_server.Room.Rows.{
  is_member, in_group, has_id, is_group_of, is_friend_of, is_pair, is_contact, with_role,
  member_before, one_row, upsert_contact,
}
use chatroom_server.Base.{
  ℕ, ◌+◌, ◌≡◌, String, Bool, true, false, ◌&&◌, ◌||◌, Option, none, some, List, [], ◌∷◌, ◌++◌, map,
  foldl, ltb, leb, ◌==◌, if◌then◌else◌, filter, find?, any,
}
use chatroom_server.Base.Rows.{delete_where, update_where}
use chatroom_server.Base.Sort.{sort_by}
use chatroom_server.Action.{Result, ok, err, ◌>>=◌, ◌>>◌, pure, raise}
use chatroom_server.Db.{
  Contact, Tables, DbError, no_rows, not_found, duplicate, self_dm, Session, Sql, statement, query,
  transaction,
}
use chatroom_server.Room.Model.{
  Room, RoomType, Role, Group, Friend, Member, type_friend, type_group, role_owner, hot_no,
}
use chatroom_server.Message.Model.{Message}

-- INSERT INTO room (type, hot_flag) VALUES (?, 0)
unfoldable pub insert_room : RoomType → Sql ℕ
insert_room type s = statement s λ now t. (
  ok t.next.room,
  record t {
    rooms =
        (record {
          id = t.next.room;
          type = type;
          hot_flag = hot_no;
          active_time = now;
          last_msg_id = 0;
          create_time = now;
        })
        ∷ t.rooms;
    next = record (t.next) { room = t.next.room + 1 };
  },
)

-- INSERT INTO room_group (room_id, name, avatar) VALUES (?, ?, ?), with the unique key uk_room_id
unfoldable pub insert_group : ℕ → String → String → Sql (Unit {0})
insert_group room_id name avatar s = statement s λ now t.
    let next = record (t.next) { room_group = t.next.room_group + 1 } in
    if any (is_group_of room_id) t.groups then (err duplicate, record t { next = next }) else (
      ok tt,
      record t {
        groups =
            (record { id = t.next.room_group; room_id = room_id; name = name; avatar = avatar })
            ∷ t.groups;
        next = next;
      },
    )

-- INSERT INTO group_member (group_id, uid, role) VALUES (?, ?, ?), with the unique key uk_group_uid
unfoldable pub insert_member : ℕ → ℕ → Role → Sql (Unit {0})
insert_member group_id uid role s = statement s λ now t.
    let next = record (t.next) { group_member = t.next.group_member + 1 } in
    if any (is_member group_id uid) t.members then (err duplicate, record t { next = next }) else (
      ok tt,
      record t {
        members =
            (record {
              id = t.next.group_member;
              group_id = group_id;
              uid = uid;
              role = role;
              create_time = now;
            })
            ∷ t.members;
        next = next;
      },
    )

-- INSERT INTO room_friend (room_id, uid1, uid2) VALUES (?, ?, ?), with the unique key uk_room_id
unfoldable pub insert_friend : ℕ → ℕ → ℕ → Sql (Unit {0})
insert_friend room_id uid1 uid2 s = statement s λ now t.
    let next = record (t.next) { room_friend = t.next.room_friend + 1 } in
    if any (is_friend_of room_id) t.friends then (err duplicate, record t { next = next }) else (
      ok tt,
      record t {
        friends =
            (record { id = t.next.room_friend; room_id = room_id; uid1 = uid1; uid2 = uid2 })
            ∷ t.friends;
        next = next;
      },
    )

abbrev create_group_body : ℕ → String → String → Sql ℕ
create_group_body owner_uid name avatar = do
  room_id ← insert_room type_group
  insert_group room_id name avatar
  insert_member room_id owner_uid role_owner
  pure room_id

-- `CreateGroupRoom`
unfoldable pub create_group_room : ℕ → String → String → Sql ℕ
unfolding insert_room insert_group insert_member
create_group_room owner_uid name avatar = transaction (create_group_body owner_uid name avatar)

-- `AddMember`
unfoldable pub add_member : ℕ → ℕ → Role → Sql (Unit {0})
unfolding insert_member
add_member group_id uid role s = insert_member group_id uid role s

-- `RemoveMember`: DELETE FROM group_member WHERE group_id = ? AND uid = ?
unfoldable pub remove_member : ℕ → ℕ → Sql (Unit {0})
remove_member group_id uid s =
    statement s
      λ now t. (ok tt, record t { members = delete_where (is_member group_id uid) t.members })

-- `SetRole`: UPDATE group_member SET role = ? WHERE group_id = ? AND uid = ?
unfoldable pub set_role : ℕ → ℕ → Role → Sql (Unit {0})
set_role group_id uid role s = statement s λ now t.
    (ok tt, record t { members = update_where (is_member group_id uid) (with_role role) t.members })

-- `ListMembers`
unfoldable pub list_members : ℕ → Sql (List Member)
list_members group_id s =
    query s λ t. ok (sort_by member_before (filter (in_group group_id) t.members))

-- `GetMember`
unfoldable pub get_member : ℕ → ℕ → Sql Member
get_member group_id uid s = query s λ t. one_row (find? (is_member group_id uid) t.members)

-- `GetRoom`
unfoldable pub get_room : ℕ → Sql Room
get_room room_id s = query s λ t. one_row (find? (has_id room_id) t.rooms)

-- `GetGroupByRoomID`
unfoldable pub get_group_by_room_id : ℕ → Sql Group
get_group_by_room_id room_id s = query s λ t. one_row (find? (is_group_of room_id) t.groups)

-- `GetFriendByRoomID`
unfoldable pub get_friend_by_room_id : ℕ → Sql Friend
get_friend_by_room_id room_id s = query s λ t. one_row (find? (is_friend_of room_id) t.friends)

-- `TouchRoom`: UPDATE room SET active_time = NOW(), last_msg_id = ? WHERE id = ?
unfoldable pub touch_room : ℕ → ℕ → Sql (Unit {0})
touch_room room_id msg_id s = statement s λ now t. (
  ok tt,
  record t {
    rooms =
        update_where (has_id room_id) (λ r. record r { active_time = now; last_msg_id = msg_id })
          t.rooms;
  },
)

abbrev pub bump_one : ℕ → ℕ → List Contact → ℕ → List Contact
bump_one now room_id cs uid =
    upsert_contact (record { uid = uid; room_id = room_id; active_time = now; unread_count = 1 })
      (λ c. record c { active_time = now; unread_count = c.unread_count + 1 }) cs

-- The rows that the `VALUES` list names, one after the other.
unfoldable pub bump_all : ℕ → ℕ → List ℕ → List Contact → List Contact
bump_all now room_id [] cs = cs
bump_all now room_id (uid ∷ uids) cs = bump_all now room_id uids (bump_one now room_id cs uid)

-- `BumpUnread`; with no recipient no statement is sent.
unfoldable pub bump_unread : ℕ → List ℕ → Sql (Unit {0})
bump_unread room_id [] s = (ok tt, s)
bump_unread room_id (uid ∷ uids) s =
    statement s
      (λ now t. (ok tt, record t { contacts = bump_all now room_id (uid ∷ uids) t.contacts }))

-- `ResetUnread`
unfoldable pub reset_unread : ℕ → ℕ → Sql (Unit {0})
reset_unread uid room_id s = statement s λ now t. (
  ok tt,
  record t {
    contacts =
        upsert_contact
          (record { uid = uid; room_id = room_id; active_time = now; unread_count = 0 })
          (λ c. record c { unread_count = 0 }) t.contacts;
  },
)

-- The query at the head of `GetOrCreateFriendRoom`.
unfoldable pub find_friend_room : ℕ → ℕ → Sql Friend
find_friend_room uid1 uid2 s =
    query s λ t. elim (find? (is_pair uid1 uid2) t.friends) [ none ↦ err no_rows | some f ↦ ok f ]

abbrev create_friend_body : ℕ → ℕ → Sql ℕ
create_friend_body uid1 uid2 = do
  room_id ← insert_room type_friend
  insert_friend room_id uid1 uid2
  pure room_id

-- Its transaction.
unfoldable pub create_friend_room : ℕ → ℕ → Sql ℕ
unfolding insert_room insert_friend
create_friend_room uid1 uid2 = transaction (create_friend_body uid1 uid2)

abbrev found_or_create : ℕ → ℕ → Result DbError Friend × Session → Result DbError ℕ × Session
found_or_create uid1 uid2 (ok f, s) = (ok f.room_id, s)
found_or_create uid1 uid2 (err no_rows, s) = create_friend_room uid1 uid2 s
found_or_create uid1 uid2 (err e, s) = (err e, s)

abbrev ordered_friend_room : ℕ → ℕ → Sql ℕ
ordered_friend_room uid1 uid2 s = found_or_create uid1 uid2 (find_friend_room uid1 uid2 s)

-- `GetOrCreateFriendRoom`: the smaller uid stands first.
unfoldable pub get_or_create_friend_room : ℕ → ℕ → Sql ℕ
unfolding find_friend_room create_friend_room
get_or_create_friend_room uid1 uid2 s =
    if uid1 == uid2
    then (err self_dm, s)
    else if ltb uid2 uid1
    then ordered_friend_room uid2 uid1 s
    else ordered_friend_room uid1 uid2 s
