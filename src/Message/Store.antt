-- ===== src/Message/Store.antt =====
-- internal/message/store.go: `SQLStore`.
pub mod Paging
pub mod History
pub mod Marks
use chatroom_server.Base.{
  ℕ, suc, ◌+◌, Bool, true, false, ◌&&◌, Option, none, some, List, [], ◌∷◌, ltb, leb, ◌==◌,
  if◌then◌else◌, filter, find?, any, take,
}
use chatroom_server.Base.Rows.{update_where}
use chatroom_server.Base.Sort.{sort_by}
use chatroom_server.Action.{Result, ok, err}
use chatroom_server.Db.{DbError, not_found, Sql, statement, query}
use chatroom_server.Message.Model.{Message, Mark, Status}

abbrev pub has_msg_id : ℕ → Message → Bool
has_msg_id id m = m.id == id

abbrev pub is_mark : ℕ → ℕ → ℕ → Mark → Bool
is_mark msg_id uid mark_type k = k.msg_id == msg_id && (k.uid == uid && k.type == mark_type)

-- `Insert`: the id and `create_time` come from the table, the other columns from the argument.
unfoldable pub insert : Message → Sql ℕ
insert m s = statement s λ now t. (
  ok t.next.message,
  record t {
    messages = (record m { id = t.next.message; create_time = now }) ∷ t.messages;
    next = record (t.next) { message = t.next.message + 1 };
  },
)

abbrev row_of : Option Message → Result DbError Message
row_of none = err not_found
row_of (some m) = ok m

-- `GetByID`
unfoldable pub get_by_id : ℕ → Sql Message
get_by_id id s = query s λ t. row_of (find? (has_msg_id id) t.messages)

abbrev pub with_status : Status → Message → Message
with_status status m = record m { status = status }

-- `SetStatus`
unfoldable pub set_status : ℕ → Status → Sql (Unit {0})
set_status id status s = statement s λ now t.
    (ok tt, record t { messages = update_where (has_msg_id id) (with_status status) t.messages })

-- `AddMark`: on the unique key uk_msg_uid_type a second mark changes nothing.
unfoldable pub add_mark : ℕ → ℕ → ℕ → Sql (Unit {0})
add_mark msg_id uid mark_type s = statement s λ now t.
    let next = record (t.next) { message_mark = t.next.message_mark + 1 } in
    (
      ok tt,
      record t {
        marks =
            if any (is_mark msg_id uid mark_type) t.marks
            then t.marks
            else (record {
              id = t.next.message_mark;
              msg_id = msg_id;
              uid = uid;
              type = mark_type;
              create_time = now;
            })
              ∷ t.marks;
        next = next;
      },
    )

-- ORDER BY id DESC
abbrev pub newer : Message → Message → Bool
newer a b = leb b.id a.id

-- WHERE room_id = ?, and AND id < ? unless the cursor is 0
abbrev pub in_page : ℕ → ℕ → Message → Bool
in_page room_id before_id m =
    if before_id == 0 then m.room_id == room_id else m.room_id == room_id && ltb m.id before_id

-- `ListByRoomCursor`
unfoldable pub list_by_room_cursor : ℕ → ℕ → ℕ → Sql (List Message)
list_by_room_cursor room_id before_id limit s =
    query s λ t. ok (take limit (sort_by newer (filter (in_page room_id before_id) t.messages)))
