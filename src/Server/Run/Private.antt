-- ===== src/Server/Run/Private.antt =====
-- Who hears of a message that is sent while the server is at work.
use chatroom_server.Base.{
  ℕ, ◌≡◌, refl, String, true, false, Option, some, List, find?, contains, arith, Bool-cases,
  Option-cases, inl, inr,
}
use chatroom_server.Action.{Result-cases, ok}
use chatroom_server.MemberCache.{MemberCache, IsCache}
use chatroom_server.World.{World, serve, sql}
use chatroom_server.Room.Model.{Room, Member, is_hot}
use chatroom_server.Room.Rows.{has_id}
use chatroom_server.Room.Store as Rooms
use chatroom_server.Message.Store as Messages
use chatroom_server.Message.Request.{SendRequest, with_room, refusal, new_message}
use chatroom_server.Message.Handler.{can_post, broadcast, post_message, send}
use chatroom_server.Message.Handler.Parts.{can_post-frame, track_activity-frame}
use chatroom_server.Coherence.Post.{participates}
use chatroom_server.Coherence.Push.{broadcast-private}
use chatroom_server.Coherence.Invalidation.{IsUp}
use chatroom_server.Ws.Envelope.{Envelope}
use chatroom_server.Ws.Hub.{conns_of}
use chatroom_server.Ws.Hub.Delivery.{deliveries}
use chatroom_server.Server.Requests.{Parts}
use chatroom_server.Server.Sound.{IsSound, IsKept}
use chatroom_server.Server.Sound.Posting.{insert-Kept, get_room-Kept, get_room-old}
use chatroom_server.Server.Sound.Reading.{can_post-Kept}
use chatroom_server.Server.Run.{Event, run}
use chatroom_server.Server.Run.Invariants.{kept, run-IsSound, elsewhere}

module _ {C : MemberCache} where
  -- No participant of the room holds the connection.
  abbrev pub IsApart : Room → ℕ → World C → Type 0
  IsApart rm c w =
      (u : ℕ)
      → participates w.session.tables rm u ≡ true
      → contains (conns_of w.hub.conns u) c ≡ false

  IsApart-moved :
      (rm : Room) (c : ℕ) (w w' : World C)
      → w'.session.tables.members ≡ w.session.tables.members
      → w'.session.tables.friends ≡ w.session.tables.friends
      → w'.hub ≡ w.hub
      → IsApart rm c w
      → IsApart rm c w'
  IsApart-moved rm c w w' m f h a u l = ground (arith, m, f, h, a u)

module _ {C : MemberCache} (lawful : IsCache C) (members : List Member) (next : ℕ)
    (encode : Envelope → Option String) (uid : ℕ) (req : SendRequest) (rm : Room)
    (cold : is_hot rm ≡ false) (c : ℕ) where
  post_message-private :
      (w : World C)
      → IsKept C members next w
      → IsApart rm c w
      → deliveries c (serve (post_message encode uid req rm) w).1.hub.sent ≡ deliveries c w.hub.sent
  unfolding post_message Messages.insert
  post_message-private w p apart =
      let (r, w1) = sql (Messages.insert (new_message uid req)) w in
      let p1 = insert-Kept lawful members next w (new_message uid req) p in
      elim (Result-cases r) [
        | inr (x, e) ↦ ground (arith, e)
        | inl (id, e) ↦
            let msg = record (new_message uid req) { id = id; create_time = w1.now } in
            ground (
              arith,
              e,
              (track_activity-frame rm uid id (broadcast encode rm msg w1)).1,
              broadcast-private lawful w1 p1.sound.coherent rm cold encode msg c
                  (IsApart-moved rm c w w1 (ground arith) (ground arith) refl apart),
            )
      ]

  send-private :
      (w : World C)
      → IsKept C members next w
      → IsApart rm c w
      → (body : Option SendRequest) → with_room body ≡ some req
      → find? (has_id req.room_id) w.session.tables.rooms ≡ some rm
      → deliveries c (serve (send encode uid body) w).1.hub.sent ≡ deliveries c w.hub.sent
  unfolding send Rooms.get_room
  send-private w p apart body decoded found =
      let (r, w1) = sql (Rooms.get_room req.room_id) w in
      let p1 = get_room-Kept lawful members next w req.room_id p in
      elim (Option-cases (refusal req)) [
        | inr (bad, e) ↦ ground (arith, decoded, e)
        | inl fine ↦ elim (Result-cases r) [
          | inr (x, e) ↦ ground (arith, decoded, fine, e)
          | inl (rm', e) ↦
              let here : r ≡ ok rm = ground (arith, e, found) in
              let (allowed, w2) = can_post rm uid w1 in
              let p2 =
                can_post-Kept lawful members next w1 p1 rm
                  (get_room-old lawful members next w req.room_id rm p here) uid in
              let frame = can_post-frame w1 rm uid in
              let apart2 =
                IsApart-moved rm c w w2 (ground (arith, frame)) (ground (arith, frame))
                  (ground (arith, frame)) apart in
              elim (Bool-cases allowed) [
                | inl e2 ↦
                    ground
                      (arith, decoded, fine, here, e2, frame, post_message-private w2 p2 apart2)
                | inr e2 ↦ ground (arith, decoded, fine, here, e2, frame)
              ]
        ]
      ]

-- With a cache that keeps its laws, is in use and whose server takes every invalidation, and from a sound
-- world: after any events, a request to send a message to a room that is found and is not hot pushes nothing
-- to a connection that no participant of the room holds, whether it succeeds or not, and whatever statements
-- and cache calls fail.
pub run-send_private :
    {C : MemberCache}
    → IsCache C
    → IsUp C
    → (P : Parts) (es : List Event) (w : World C) → IsSound C w
    → (now uid c : ℕ) (body : Option SendRequest) (req : SendRequest) (rm : Room)
    → with_room body ≡ some req
    → find? (has_id req.room_id) (run P es w).session.tables.rooms ≡ some rm
    → is_hot rm ≡ false
    → IsApart rm c (run P es w)
    → let v = record (run P es w) { now = now } in
      deliveries c (serve (send P.encode uid body) v).1.hub.sent
      ≡ deliveries c (run P es w).hub.sent
run-send_private lawful up P es w p now uid c body req rm decoded found cold apart =
    let v = record (run P es w) { now = now } in
    let q = elsewhere lawful P (run P es w) (run-IsSound lawful P up es w p) v (refl, refl) in
    send-private lawful _ _ P.encode uid req rm cold c v (kept lawful P v q)
      (IsApart-moved rm c (run P es w) v refl refl refl apart) body decoded found
