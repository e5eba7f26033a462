-- ===== src/Server/Sound/Posting.antt =====
-- The handlers of internal/message/handler.go.
use chatroom_server.Base.{
  ℕ, ◌<◌, ◌≡◌, refl, String, Option, none, some, List, arith, Option-cases, Bool-cases, inl, inr,
  find?,
}
use chatroom_server.Action.{Result, Result-cases, ok, err}
use chatroom_server.Db.{DbError}
use chatroom_server.MemberCache.{MemberCache, IsCache}
use chatroom_server.World.{World, sql, serve}
use chatroom_server.Room.Model.{Room, Member}
use chatroom_server.Room.Rows.{has_id}
use chatroom_server.Room.Store as Rooms
use chatroom_server.Message.Model.{Message, status_deleted}
use chatroom_server.Message.Store as Messages
use chatroom_server.Message.Request.{SendRequest, with_room, refusal, new_message}
use chatroom_server.Message.Recall.{can_recall}
use chatroom_server.Message.Handler.{
  can_post, broadcast, track_activity, post_message, send, push_recalled, recall, mark, page,
  role_or_member,
}
use chatroom_server.Ws.Envelope.{Envelope}
use chatroom_server.Server.Sound.{IsKept, IsKept-frame, find-has_id}
use chatroom_server.Server.Sound.Reading.{
  Kept-eq, broadcast-Kept, track_activity-Kept, can_post-Kept,
}

module _ {C : MemberCache} (lawful : IsCache C) (members : List Member) (next : ℕ) where
  abbrev Kept : World C → Type 0
  Kept = IsKept C members next

  -- Statements that leave what is kept.
  pub get_room-Kept : (w : World C) (k : ℕ) → Kept w → Kept (sql (Rooms.get_room k) w).1
  unfolding Rooms.get_room
  get_room-Kept w k p = IsKept-frame w _ refl (ground arith) (ground arith) (λ k. ground arith) p

  pub insert-Kept : (w : World C) (m : Message) → Kept w → Kept (sql (Messages.insert m) w).1
  unfolding Messages.insert
  insert-Kept w m p = IsKept-frame w _ refl (ground arith) (ground arith) (λ k. ground arith) p

  -- A room that is found is below the next one.
  pub get_room-old :
      (w : World C) (k : ℕ) (rm : Room)
      → Kept w
      → (sql (Rooms.get_room k) w).0 ≡ ok rm
      → rm.id < next
  unfolding Rooms.get_room
  get_room-old w k rm p e = elim (Option-cases (find? (has_id k) w.session.tables.rooms)) [
    | inl missing ↦ absurd (ground (arith, e, missing))
    | inr (r, found) ↦ ground (
      arith,
      e,
      found,
      find-has_id k r w.session.tables.rooms found,
      p.sound.numbered k,
      p.same_next,
    )
  ]

  module _ (encode : Envelope → Option String) where
    post_message-Kept :
        (uid : ℕ) (req : SendRequest) (rm : Room) (w : World C)
        → Kept w
        → rm.id < next
        → Kept (serve (post_message encode uid req rm) w).1
    unfolding post_message
    post_message-Kept uid req rm w p old =
        let (r, w1) = sql (Messages.insert (new_message uid req)) w in
        let p1 = insert-Kept w (new_message uid req) p in
        elim (Result-cases r) [
          | inr (x, e) ↦ Kept-eq lawful members next w1 _ (ground (arith, e)) p1
          | inl (id, e) ↦
              let msg = record (new_message uid req) { id = id; create_time = w1.now } in
              Kept-eq lawful members next (track_activity rm uid id (broadcast encode rm msg w1)) _
                (ground (arith, e))
                (track_activity-Kept lawful members next (broadcast encode rm msg w1)
                  (broadcast-Kept lawful members next w1 p1 rm old encode msg) rm old uid id)
        ]

    posted-Kept :
        (uid : ℕ) (req : SendRequest) (w : World C)
        → Kept w
        → (body : Option SendRequest) → with_room body ≡ some req
        → refusal req ≡ none
        → Kept (serve (send encode uid body) w).1
    unfolding send
    posted-Kept uid req w p body decoded fine =
        let (r, w1) = sql (Rooms.get_room req.room_id) w in
        let p1 = get_room-Kept w req.room_id p in
        elim (Result-cases r) [
          | inr (x, e) ↦ Kept-eq lawful members next w1 _ (ground (arith, decoded, fine, e)) p1
          | inl (rm, e) ↦
              let old = get_room-old w req.room_id rm p e in
              let (allowed, w2) = can_post rm uid w1 in
              let p2 = can_post-Kept lawful members next w1 p1 rm old uid in
              elim (Bool-cases allowed) [
                | inl yes_ ↦
                    Kept-eq lawful members next (serve (post_message encode uid req rm) w2).1 _
                      (ground (arith, decoded, fine, e, yes_))
                      (post_message-Kept uid req rm w2 p2 old)
                | inr no_ ↦
                    Kept-eq lawful members next w2 _ (ground (arith, decoded, fine, e, no_)) p2
              ]
        ]

    pub send-Kept :
        (uid : ℕ) (body : Option SendRequest) (w : World C)
        → Kept w
        → Kept (serve (send encode uid body) w).1
    unfolding send
    send-Kept uid body w p = elim (Option-cases (with_room body)) [
      | inl e ↦ Kept-eq lawful members next w _ (ground (arith, e)) p
      | inr (req, decoded) ↦ elim (Option-cases (refusal req)) [
        | inl fine ↦ posted-Kept uid req w p body decoded fine
        | inr (bad, e) ↦ Kept-eq lawful members next w _ (ground (arith, decoded, e)) p
      ]
    ]

    push_recalled-Kept :
        (m : Message) (r : Result DbError Room) (w : World C)
        → Kept w
        → ((rm : Room) → r ≡ ok rm → rm.id < next)
        → Kept (push_recalled encode m (r, w))
    unfolding push_recalled
    push_recalled-Kept m (err e) w p old = p
    push_recalled-Kept m (ok rm) w p old =
        broadcast-Kept lawful members next w p rm (old rm refl) encode
          (record m { status = status_deleted })

    module _ (id : ℕ) (m : Message) (w : World C) (p : Kept w) where
      abbrev marked : Result DbError (Unit {0}) × World C
      marked = sql (Messages.set_status id status_deleted) w

      marked-Kept : Kept marked.1
      unfolding Messages.set_status
      marked-Kept = IsKept-frame w _ refl (ground arith) (ground arith) (λ k. ground arith) p

      -- The end of `recall`, where the message is found and may be recalled.
      withdrawn-Kept : Kept (push_recalled encode m (sql (Rooms.get_room m.room_id) marked.1))
      withdrawn-Kept =
          let (r, w2) = sql (Rooms.get_room m.room_id) marked.1 in
          push_recalled-Kept m r w2 (get_room-Kept marked.1 m.room_id marked-Kept)
            (λ rm e. get_room-old marked.1 m.room_id rm marked-Kept e)

    looked_up-Kept : (w : World C) (id : ℕ) → Kept w → Kept (sql (Messages.get_by_id id) w).1
    unfolding Messages.get_by_id
    looked_up-Kept w id p =
        IsKept-frame w _ refl (ground arith) (ground arith) (λ k. ground arith) p

    get_member-Kept : (w : World C) (g uid : ℕ) → Kept w → Kept (sql (Rooms.get_member g uid) w).1
    unfolding Rooms.get_member
    get_member-Kept w g uid p =
        IsKept-frame w _ refl (ground arith) (ground arith) (λ k. ground arith) p

    pub recall-Kept :
        (uid : ℕ) (path_id : Option ℕ) (w : World C)
        → Kept w
        → Kept (serve (recall encode uid path_id) w).1
    unfolding recall
    recall-Kept uid none w p = p
    recall-Kept uid (some id) w p =
        let (r, w1) = sql (Messages.get_by_id id) w in
        let p1 = looked_up-Kept w id p in
        elim (Result-cases r) [
          | inr (x, e) ↦ Kept-eq lawful members next w1 _ (ground (arith, e)) p1
          | inl (m, e) ↦
              let (member, w2) = sql (Rooms.get_member m.room_id uid) w1 in
              let p2 = get_member-Kept w1 m.room_id uid p1 in
              let may = can_recall m.from_uid uid (role_or_member member) m.create_time w2.now in
              elim (Bool-cases may) [
                | inr refused ↦ Kept-eq lawful members next w2 _ (ground (arith, e, refused)) p2
                | inl allowed ↦ elim (Result-cases (marked id m w2 p2).0) [
                  | inr (x, f) ↦
                      Kept-eq lawful members next (marked id m w2 p2).1 _
                        (ground (arith, e, allowed, f)) (marked-Kept id m w2 p2)
                  | inl (u, f) ↦
                      Kept-eq lawful members next
                        (push_recalled encode m
                          (sql (Rooms.get_room m.room_id) (marked id m w2 p2).1))
                        _ (ground (arith, e, allowed, f)) (withdrawn-Kept id m w2 p2)
                ]
              ]
        ]

  pub mark-Kept :
      (uid : ℕ) (path_id body : Option ℕ) (w : World C)
      → Kept w
      → Kept (serve (mark uid path_id body) w).1
  unfolding mark Messages.add_mark
  mark-Kept uid path_id body w p =
      IsKept-frame w _ (ground arith) (ground arith) (ground arith) (λ k. ground arith) p

  pub page-Kept :
      (path_room before limit : Option ℕ) (w : World C)
      → Kept w
      → Kept (serve (page path_room before limit) w).1
  unfolding page Messages.list_by_room_cursor
  page-Kept path_room before limit w p =
      IsKept-frame w _ (ground arith) (ground arith) (ground arith) (λ k. ground arith) p
