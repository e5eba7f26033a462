-- ===== src/Message/Handler/Send.antt =====
-- `send` of internal/message/handler.go: who may send, what is stored, and what a refused request
-- leaves.
use chatroom_server.Base.{
  ℕ, ◌≡◌, ◌≢◌, String, Bool, true, false, Option, none, some, ◌==◌, find?, arith, Option-cases, inl,
  inr,
}
use chatroom_server.Db.{Tables}
use chatroom_server.MemberCache.{MemberCache, IsCache}
use chatroom_server.World.{World, serve, sql}
use chatroom_server.Http.{Response, bad_request}
use chatroom_server.Room.Model.{Room}
use chatroom_server.Room.Store
use chatroom_server.Room.Rows.{has_id}
use chatroom_server.Message.Model.{Message}
use chatroom_server.Message.Store as Messages
use chatroom_server.Message.Handler.{can_post, send, post_message}
use chatroom_server.Message.Request.{SendRequest, with_room, refusal}
use chatroom_server.Message.Handler.Parts.{can_post-frame}
use chatroom_server.Ws.Envelope.{Envelope}
use chatroom_server.Coherence.{IsCoherent}
use chatroom_server.Coherence.Post.{participates, can_post-participates}

-- A message without the time that the database gives it.
abbrev pub undated : Message → Message
undated m = record m { create_time = 0 }

-- The room exists, and the sender participates in it.
abbrev pub may_send : Tables → ℕ → ℕ → Bool
may_send t uid room_id = elim (find? (has_id room_id) t.rooms) [
  | none ↦ false
  | some rm ↦ participates t rm uid
]

module _ {C : MemberCache} (encode : Envelope → Option String) (uid : ℕ) (req : SendRequest)
    (rm : Room) (w : World C) where
  abbrev posted : Response × World C
  posted = serve (post_message encode uid req rm) w

  post_message-refused :
      posted.0.status ≢ 200 → (posted.1.session.tables ≡ w.session.tables) × (posted.1.hub ≡ w.hub)
  unfolding post_message Messages.insert
  post_message-refused h = ground arith

abbrev is_bad_request : Option Response → Bool
is_bad_request none = true
is_bad_request (some r) = r.status == bad_request

-- A refusal of the message itself is a bad request.
refusal-is_bad_request : (req : SendRequest) → is_bad_request (refusal req) ≡ true
unfolding refusal
refusal-is_bad_request req = ground arith

module _ {C : MemberCache} (encode : Envelope → Option String) (uid : ℕ) (body : Option SendRequest)
    (w : World C) where
  abbrev pub sent : Response × World C
  sent = serve (send encode uid body) w

  -- The world in which the message is posted, for the room that is found.
  abbrev admitted : ℕ → Room → World C
  admitted room_id rm = (can_post rm uid (sql (Store.get_room room_id) w).1).1

  -- A refused request, whatever refused it, stores no message, pushes nothing and changes no table.
  pub send-refused :
      sent.0.status ≢ 200 → (sent.1.session.tables ≡ w.session.tables) × (sent.1.hub ≡ w.hub)
  unfolding send Store.get_room
  send-refused h = elim (Option-cases (with_room body)) [
    | inl e ↦ ground (arith, e)
    | inr (req, e) ↦ elim (Option-cases (find? (has_id req.room_id) w.session.tables.rooms)) [
      | inl missing ↦ ground (arith, e, missing)
      | inr (rm, found) ↦ ground (
        arith,
        e,
        found,
        can_post-frame (sql (Store.get_room req.room_id) w).1 rm uid,
        post_message-refused encode uid req rm (admitted req.room_id rm),
      )
    ]
  ]

  module _ (req : SendRequest) (decoded : with_room body ≡ some req) where
    -- Where the cache is in step with the tables, whoever sends with success participates in the room
    -- of the message, as the tables stand when the request comes in, and the message has what its type
    -- requires.
    pub send-authorised :
        IsCache C
        → IsCoherent C w
        → sent.0.status ≡ 200
        → (may_send w.session.tables uid req.room_id ≡ true) × (refusal req ≡ none)
    unfolding send Store.get_room
    send-authorised lawful fresh h =
        elim (Option-cases (find? (has_id req.room_id) w.session.tables.rooms)) [
          | inl missing ↦ ground (arith, decoded, missing, refusal-is_bad_request req)
          | inr (rm, found) ↦
              let w1 = (sql (Store.get_room req.room_id) w).1 in
              let fresh1 : IsCoherent C w1 = record { known = fresh.known; exact = fresh.exact } in
              ground (
                arith,
                decoded,
                found,
                refusal-is_bad_request req,
                can_post-participates lawful w1 fresh1 rm uid,
              )
        ]
