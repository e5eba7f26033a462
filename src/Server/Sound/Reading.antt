-- ===== src/Server/Sound/Reading.antt =====
-- The parts of the message handlers that read the members and push: internal/message/handler.go.
use chatroom_server.Base.{
  ℕ, ◌<◌, ◌≡◌, refl, sym, ap, ◌∙◌, String, Option, List, arith, Bool-cases, Option-cases, inl, inr,
}
use mathlib.Core.Path.{subst}
use chatroom_server.Action.{Result, ok, err}
use chatroom_server.Db.{DbError}
use chatroom_server.MemberCache.{MemberCache, IsCache}
use chatroom_server.World.{World, sql}
use chatroom_server.Room.Model.{Room, Member, is_group, is_hot}
use chatroom_server.Room.Store
use chatroom_server.Message.Model.{Message}
use chatroom_server.Message.Handler.{
  group_member_uids, resolve_recipients, can_post, broadcast, push_to, track_activity, count_unread,
  others,
}
use chatroom_server.Message.Handler.Parts.{
  group_member_uids-frame, bump_unread-frame, reset_unread-frame,
}
use chatroom_server.Ws.Envelope.{Envelope, marshal}
use chatroom_server.Ws.Envelope
use chatroom_server.Coherence.{group_member_uids-IsCoherent}
use chatroom_server.Server.Sound.{IsKept, IsKept-frame, any-update_id}

module _ {C : MemberCache} (lawful : IsCache C) (members : List Member) (next : ℕ) where
  abbrev pub Kept : World C → Type 0
  Kept = IsKept C members next

  -- A world that is another by an equation.
  pub Kept-eq : (w w' : World C) → w' ≡ w → Kept w → Kept w'
  Kept-eq w w' e p = subst (λ v. Kept v) (sym e) p

  module _ (w : World C) (p : Kept w) (rm : Room) (old : rm.id < next) where
    group_member_uids-Kept : Kept (group_member_uids rm.id w).1
    group_member_uids-Kept =
        let same = (group_member_uids-frame w rm.id).0 in
        record {
          sound = record {
            coherent =
                group_member_uids-IsCoherent lawful w p.sound.coherent rm.id
                  (ground (arith, p.same_next));
            numbered = λ k h. ground (arith, same, p.sound.numbered k);
          };
          same_members = ap (λ t. t.members) same ∙ p.same_members;
          same_next = ap (λ t. t.next.room) same ∙ p.same_next;
        }

    friend-Kept : Kept (sql (Store.get_friend_by_room_id rm.id) w).1
    unfolding Store.get_friend_by_room_id
    friend-Kept = IsKept-frame w _ refl (ground arith) (ground arith) (λ k. ground arith) p

    pub resolve_recipients-Kept : Kept (resolve_recipients rm w).1
    unfolding resolve_recipients
    resolve_recipients-Kept = elim (Bool-cases (is_group rm)) [
      | inl e ↦ Kept-eq (group_member_uids rm.id w).1 _ (ground (arith, e)) group_member_uids-Kept
      | inr e ↦
          Kept-eq (sql (Store.get_friend_by_room_id rm.id) w).1 _ (ground (arith, e)) friend-Kept
    ]

    pub can_post-Kept : (uid : ℕ) → Kept (can_post rm uid w).1
    unfolding can_post
    can_post-Kept uid = elim (Bool-cases (is_hot rm)) [
      | inl e ↦ Kept-eq w _ (ground (arith, e)) p
      | inr cold ↦ elim (Bool-cases (is_group rm)) [
        | inl e ↦
            Kept-eq (group_member_uids rm.id w).1 _ (ground (arith, cold, e)) group_member_uids-Kept
        | inr e ↦
            Kept-eq (sql (Store.get_friend_by_room_id rm.id) w).1 _ (ground (arith, cold, e))
              friend-Kept
      ]
    ]

    push-Kept : (payload : String) → Kept (push_to payload (resolve_recipients rm w))
    push-Kept payload =
        pushed (resolve_recipients rm w).0 (resolve_recipients rm w).1 resolve_recipients-Kept
      where
        pushed :
            (r : Result DbError (List ℕ)) (v : World C) → Kept v → Kept (push_to payload (r, v))
        pushed (ok uids) v q = IsKept-frame v _ refl refl refl (λ k. refl) q
        pushed (err e) v q = q

    pub broadcast-Kept :
        (encode : Envelope → Option String) (msg : Message) → Kept (broadcast encode rm msg w)
    unfolding broadcast
    broadcast-Kept encode msg =
        elim (Option-cases (marshal encode "chat_message" (Envelope.message msg))) [
          | inl e ↦ Kept-eq w _ (ground (arith, e)) p
          | inr (payload, e) ↦ elim (Bool-cases (is_hot rm)) [
            | inl hot ↦
                IsKept-frame w _ (ground (arith, e, hot)) (ground (arith, e, hot))
                  (ground (arith, e, hot)) (λ k. ground (arith, e, hot)) p
            | inr cold ↦
                Kept-eq (push_to payload (resolve_recipients rm w)) _ (ground (arith, e, cold))
                  (push-Kept payload)
          ]
        ]

  counts-Kept :
      (g sender : ℕ) (r : Result DbError (List ℕ)) (w : World C)
      → Kept w
      → Kept (count_unread g sender (r, w))
  counts-Kept g sender (err e) w p = p
  counts-Kept g sender (ok uids) w p =
      let bumped = bump_unread-frame g (others sender uids) w.session in
      let reset =
        reset_unread-frame sender g (Store.bump_unread g (others sender uids) w.session).1 in
      IsKept-frame w _ refl (ground (arith, bumped, reset)) (ground (arith, bumped, reset))
        (λ k. ground (arith, bumped, reset)) p

  touched-Kept :
      (w : World C) (rm : Room) (id : ℕ) → Kept w → Kept (sql (Store.touch_room rm.id id) w).1
  unfolding Store.touch_room
  touched-Kept w rm id p =
      IsKept-frame w _ refl (ground arith) (ground arith)
        (λ k. ground (
          arith,
          any-update_id k rm.id
              (λ r. record r { active_time = w.session.clock w.session.tick; last_msg_id = id })
              (λ r. refl) w.session.tables.rooms,
        ))
        p

  pub track_activity-Kept :
      (w : World C)
      → Kept w
      → (rm : Room) → rm.id < next
      → (sender id : ℕ) → Kept (track_activity rm sender id w)
  unfolding track_activity
  track_activity-Kept w p rm old sender id =
      let w1 = (sql (Store.touch_room rm.id id) w).1 in
      let q = touched-Kept w rm id p in
      let (r, w2) = resolve_recipients rm w1 in
      elim (Bool-cases (is_hot rm)) [
        | inl hot ↦ Kept-eq w1 _ (ground (arith, hot)) q
        | inr cold ↦
            Kept-eq (count_unread rm.id sender (resolve_recipients rm w1)) _ (ground (arith, cold))
              (counts-Kept rm.id sender r w2 (resolve_recipients-Kept w1 q rm old))
      ]
