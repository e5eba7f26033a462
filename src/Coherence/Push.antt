-- ===== src/Coherence/Push.antt =====
-- Who receives a pushed message: `broadcast` and `resolveRecipients` of internal/message/handler.go.
use chatroom_server.Base.{
  ℕ, ◌+◌, ◌≡◌, refl, String, true, false, Option, some, List, contains, arith, Option-cases, inl,
  inr,
}
use chatroom_server.Action.{Result, ok, err}
use chatroom_server.Db.{DbError}
use chatroom_server.MemberCache.{MemberCache, IsCache}
use chatroom_server.World.{World}
use chatroom_server.Room.Model.{Room, is_hot}
use chatroom_server.Room.Recipients.{recipients}
use chatroom_server.Room.Store
use chatroom_server.Message.Model.{Message}
use chatroom_server.Message.Handler.{
  group_member_uids, resolve_recipients, broadcast, push_to, has_uid,
}
use chatroom_server.Message.Handler.Parts.{resolve_recipients-frame}
use chatroom_server.Ws.Envelope.{Envelope, marshal}
use chatroom_server.Ws.Envelope
use chatroom_server.Ws.Hub.{conns_of}
use chatroom_server.Ws.Hub.Delivery.{deliveries, held_by, deliveries-send, held_by-none}
use chatroom_server.Coherence.{IsCoherent, has_uid-member}
use chatroom_server.Coherence.Post.{participates}

abbrev writes : ℕ → List (ℕ × List ℕ) → Result DbError (List ℕ) → ℕ
writes c m (ok uids) = held_by c m uids
writes c m (err e) = 0

writes-none :
    (c : ℕ) (m : List (ℕ × List ℕ)) (r : Result DbError (List ℕ))
    → ((u : ℕ) → has_uid u r ≡ true → contains (conns_of m u) c ≡ false)
    → writes c m r ≡ 0
writes-none c m (ok uids) h = held_by-none c m uids h
writes-none c m (err e) h = refl

module _ {C : MemberCache} (lawful : IsCache C) (w : World C) (fresh : IsCoherent C w) (rm : Room)
    (cold : is_hot rm ≡ false) where
  -- Only participants are among the recipients.
  resolve_recipients-participates :
      (u : ℕ)
      → has_uid u (resolve_recipients rm w).0 ≡ true
      → participates w.session.tables rm u ≡ true
  unfolding resolve_recipients recipients Store.get_friend_by_room_id
  resolve_recipients-participates u h =
      ground (arith, cold, has_uid-member lawful w fresh rm.id u (group_member_uids rm.id w).0 refl)

  push_to-deliveries :
      (payload : String) (c : ℕ) (r : Result DbError (List ℕ)) (w' : World C)
      → deliveries c (push_to payload (r, w')).hub.sent
        ≡ writes c w'.hub.conns r + deliveries c w'.hub.sent
  push_to-deliveries payload c (ok uids) w' = (deliveries-send c uids payload w'.hub).0
  push_to-deliveries payload c (err e) w' = omega arith

  -- The writes that a push adds to the log of a connection.
  broadcast-deliveries :
      (encode : Envelope → Option String) (msg : Message) (payload : String) (c : ℕ)
      → marshal encode "chat_message" (Envelope.message msg) ≡ some payload
      → deliveries c (broadcast encode rm msg w).hub.sent
        ≡ writes c w.hub.conns (resolve_recipients rm w).0 + deliveries c w.hub.sent
  unfolding broadcast
  broadcast-deliveries encode msg payload c e = ground (
    arith,
    cold,
    push_to-deliveries payload c (resolve_recipients rm w).0 (resolve_recipients rm w).1,
    resolve_recipients-frame w rm,
  )

  -- Where the cache is in step and the room is not hot, a connection that no participant of the room
  -- holds gets nothing of a pushed message, whatever statements and cache calls fail.
  pub broadcast-private :
      (encode : Envelope → Option String) (msg : Message) (c : ℕ)
      → ((u : ℕ)
          → participates w.session.tables rm u ≡ true
          → contains (conns_of w.hub.conns u) c ≡ false)
      → deliveries c (broadcast encode rm msg w).hub.sent ≡ deliveries c w.hub.sent
  broadcast-private encode msg c apart =
      elim (Option-cases (marshal encode "chat_message" (Envelope.message msg))) [
        | inl e ↦ unfold broadcast in rw e
        | inr (payload, e) ↦ omega (
          arith,
          broadcast-deliveries encode msg payload c e,
          writes-none c w.hub.conns (resolve_recipients rm w).0
              (λ u l. apart u (resolve_recipients-participates u l)),
        )
      ]
