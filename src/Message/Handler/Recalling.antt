-- ===== src/Message/Handler/Recalling.antt =====
-- `recall` of internal/message/handler.go: who may recall, and what changes.
use chatroom_server.Base.{
  ℕ, ◌≡◌, ◌≢◌, refl, String, true, Option, none, some, find?, arith, Option-cases, inl, inr,
}
use chatroom_server.Base.Rows.{update_where}
use chatroom_server.Action.{Result, ok, err}
use chatroom_server.Db.{Tables, DbError}
use chatroom_server.MemberCache.{MemberCache}
use chatroom_server.World.{World, serve, sql}
use chatroom_server.Http.{Response}
use chatroom_server.Room.Model.{Room, Role, role_member}
use chatroom_server.Room.Store as Rooms
use chatroom_server.Room.Rows.{is_member}
use chatroom_server.Message.Model.{Message, status_deleted}
use chatroom_server.Message.Recall.{can_recall}
use chatroom_server.Message.Recall.Window.{can_recall_mono}
use chatroom_server.Message.Store as Messages
use chatroom_server.Message.Store.{has_msg_id, with_status}
use chatroom_server.Message.Handler.{recall, push_recalled}
use chatroom_server.Message.Handler.Parts.{broadcast-tables}
use chatroom_server.Ws.Envelope.{Envelope}

-- The role that the table gives the user in the room; a plain member's, if there is no row.
abbrev pub table_role : Tables → ℕ → ℕ → Role
table_role t room_id uid = elim (find? (is_member room_id uid) t.members) [
  | none ↦ role_member
  | some m ↦ m.role
]

push_recalled-tables :
    {C : MemberCache} (encode : Envelope → Option String) (msg : Message) (r : Result DbError Room)
    (w : World C)
    → (push_recalled encode msg (r, w)).session.tables ≡ w.session.tables
unfolding push_recalled
push_recalled-tables encode msg (ok rm) w =
    broadcast-tables w encode rm (record msg { status = status_deleted })
push_recalled-tables encode msg (err e) w = refl

module _ {C : MemberCache} (encode : Envelope → Option String) (uid id : ℕ) (w : World C) where
  abbrev pub recalled : Response × World C
  recalled = serve (recall encode uid (some id)) w

  -- A recall that succeeds is of a message in the table, which the caller may recall in the role that
  -- the table gives it, even where the query for that role fails. It marks that message as deleted and
  -- changes nothing else in the tables.
  pub recall-authorised :
      recalled.0.status ≡ 200
      → (m : Message) × (find? (has_msg_id id) w.session.tables.messages ≡ some m)
        × (can_recall m.from_uid uid (table_role w.session.tables m.room_id uid) m.create_time w.now
            ≡ true)
        × (recalled.1.session.tables ≡ record (w.session.tables) {
          messages =
              update_where (has_msg_id id) (with_status status_deleted) w.session.tables.messages;
        })
  unfolding recall Messages.get_by_id Messages.set_status Rooms.get_member Rooms.get_room
  recall-authorised h = elim (Option-cases (find? (has_msg_id id) w.session.tables.messages)) [
    | inl missing ↦ absurd (ground (arith, missing))
    | inr (m, found) ↦ (
      m,
      found,
      ground (
        arith,
        found,
        can_recall_mono m.from_uid uid (table_role w.session.tables m.room_id uid) m.create_time
            w.now,
      ),
      (let w1 = (sql (Messages.get_by_id id) w).1 in
          let w2 = (sql (Rooms.get_member m.room_id uid) w1).1 in
          let w3 = (sql (Messages.set_status id status_deleted) w2).1 in
          let (r, w4) = sql (Rooms.get_room m.room_id) w3 in
          ground (arith, found, push_recalled-tables encode m r w4)),
    )
  ]

  -- A recall that is refused changes no table and pushes nothing.
  pub recall-refused :
      recalled.0.status ≢ 200
      → (recalled.1.session.tables ≡ w.session.tables) × (recalled.1.hub ≡ w.hub)
  unfolding recall Messages.get_by_id Messages.set_status Rooms.get_member
  recall-refused h = ground arith
