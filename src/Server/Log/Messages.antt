-- ===== src/Server/Log/Messages.antt =====
-- What the requests of internal/message/handler.go do to the messages.
use chatroom_server.Base.{
  ℕ, ◌≡◌, refl, sym, String, Option, none, some, arith, Bool-cases, Option-cases, inl, inr,
}
use mathlib.Core.Path.{subst}
use chatroom_server.Action.{Result, Result-cases, ok, err}
use chatroom_server.MemberCache.{MemberCache}
use chatroom_server.Db.{DbError}
use chatroom_server.World.{World, sql, serve}
use chatroom_server.Room.Model.{Room}
use chatroom_server.Room.Store as Rooms
use chatroom_server.Message.Model.{Message, status_deleted}
use chatroom_server.Message.Store as Messages
use chatroom_server.Message.Request.{SendRequest, with_room, refusal, new_message}
use chatroom_server.Message.Recall.{can_recall}
use chatroom_server.Message.Handler.{
  can_post, broadcast, post_message, send, push_recalled, recall, mark, page, role_or_member,
}
use chatroom_server.Message.Handler.Parts.{can_post-frame, broadcast-tables, track_activity-frame}
use chatroom_server.Ws.Envelope.{Envelope}
use chatroom_server.Server.Log.{Log, log_of, Changes}

moved : (l k l' k' : Log) → l ≡ k → k' ≡ l' → Changes l l' → Changes k k'
moved l k l' k' e f c = subst (λ x. Changes x k') e (subst (λ x. Changes l x) (sym f) c)

module _ {C : MemberCache} where
  abbrev log_at : World C → Log
  log_at w = log_of w.session.tables

  pub mark-log :
      (uid : ℕ) (path_id body : Option ℕ) (w : World C)
      → log_at (serve (mark uid path_id body) w).1 ≡ log_at w
  unfolding mark Messages.add_mark
  mark-log uid path_id body w = ground arith

  pub page-log :
      (room before limit : Option ℕ) (w : World C)
      → log_at (serve (page room before limit) w).1 ≡ log_at w
  unfolding page Messages.list_by_room_cursor
  page-log room before limit w = ground arith

  module _ (encode : Envelope → Option String) where
    post_message-Changes :
        (uid : ℕ) (req : SendRequest) (rm : Room) (w : World C)
        → Changes (log_at w) (log_at (serve (post_message encode uid req rm) w).1)
    unfolding post_message Messages.insert
    post_message-Changes uid req rm w = elim (Bool-cases (w.session.fails w.session.tick)) [
      | inl down ↦ inl (ground (arith, down))
      | inr up ↦
          let w1 = (sql (Messages.insert (new_message uid req)) w).1 in
          let msg = record (new_message uid req) {
            id = w.session.tables.next.message;
            create_time = w1.now;
          } in
          inr (
            inl (
              record (new_message uid req) { create_time = w.session.clock w.session.tick },
              ground (
                arith,
                up,
                broadcast-tables w1 encode rm msg,
                track_activity-frame rm uid w.session.tables.next.message
                    (broadcast encode rm msg w1),
              ),
            ))
    ]

    pub send-Changes :
        (uid : ℕ) (body : Option SendRequest) (w : World C)
        → Changes (log_at w) (log_at (serve (send encode uid body) w).1)
    unfolding send Rooms.get_room
    send-Changes uid body w = elim (Option-cases (with_room body)) [
      | inl e ↦ inl (ground (arith, e))
      | inr (req, decoded) ↦ elim (Option-cases (refusal req)) [
        | inr (bad, e) ↦ inl (ground (arith, decoded, e))
        | inl fine ↦
            let (r, w1) = sql (Rooms.get_room req.room_id) w in
            elim (Result-cases r) [
              | inr (x, e) ↦ inl (ground (arith, decoded, fine, e))
              | inl (rm, e) ↦
                  let (allowed, w2) = can_post rm uid w1 in
                  let same : log_at w2 ≡ log_at w = ground (arith, can_post-frame w1 rm uid) in
                  elim (Bool-cases allowed) [
                    | inr refused ↦ inl (ground (arith, decoded, fine, e, refused, same))
                    | inl may ↦
                        moved (log_at w2) (log_at w)
                          (log_at (serve (post_message encode uid req rm) w2).1) _ same
                          (ground (arith, decoded, fine, e, may))
                          (post_message-Changes uid req rm w2)
                  ]
            ]
      ]
    ]

    push_recalled-tables :
        (m : Message) (r : Result DbError Room) (w : World C)
        → (push_recalled encode m (r, w)).session.tables ≡ w.session.tables
    unfolding push_recalled
    push_recalled-tables m (err e) w = refl
    push_recalled-tables m (ok rm) w =
        broadcast-tables w encode rm (record m { status = status_deleted })

    pub recall-Changes :
        (uid : ℕ) (path_id : Option ℕ) (w : World C)
        → Changes (log_at w) (log_at (serve (recall encode uid path_id) w).1)
    unfolding recall Messages.get_by_id Messages.set_status Rooms.get_member Rooms.get_room
    recall-Changes uid none w = inl refl
    recall-Changes uid (some id) w =
        let (r, w1) = sql (Messages.get_by_id id) w in
        elim (Result-cases r) [
          | inr (x, e) ↦ inl (ground (arith, e))
          | inl (m, e) ↦
              let (member, w2) = sql (Rooms.get_member m.room_id uid) w1 in
              let may = can_recall m.from_uid uid (role_or_member member) m.create_time w2.now in
              let (done, w3) = sql (Messages.set_status id status_deleted) w2 in
              elim (Bool-cases may) [
                | inr refused ↦ inl (ground (arith, e, refused))
                | inl allowed ↦ elim (Result-cases done) [
                  | inr (x, f) ↦ inl (ground (arith, e, allowed, f))
                  | inl (u, f) ↦
                      let (found, w4) = sql (Rooms.get_room m.room_id) w3 in
                      inr (inr (id, ground (arith, e, allowed, f, push_recalled-tables m found w4)))
                ]
              ]
        ]

    -- A recall leaves the contacts.
    pub recall-contacts :
        (uid : ℕ) (path_id : Option ℕ) (w : World C)
        → (serve (recall encode uid path_id) w).1.session.tables.contacts
          ≡ w.session.tables.contacts
    unfolding recall Messages.get_by_id Messages.set_status Rooms.get_member Rooms.get_room
    recall-contacts uid none w = refl
    recall-contacts uid (some id) w =
        let (r, w1) = sql (Messages.get_by_id id) w in
        elim (Result-cases r) [
          | inr (x, e) ↦ ground (arith, e)
          | inl (m, e) ↦
              let (member, w2) = sql (Rooms.get_member m.room_id uid) w1 in
              let w3 = (sql (Messages.set_status id status_deleted) w2).1 in
              let (found, w4) = sql (Rooms.get_room m.room_id) w3 in
              ground (arith, e, push_recalled-tables m found w4)
        ]
