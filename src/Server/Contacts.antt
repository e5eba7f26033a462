-- ===== src/Server/Contacts.antt =====
-- The unique key uk_uid_room of `contact` under every write, and what it means for the list of the rooms.
pub mod Site
use chatroom_server.Base.{
  ℕ, ◌+◌, ◌≡◌, refl, sym, ap, ◌∙◌, String, Bool, true, false, ◌||◌, Option, none, some, List, [],
  ◌∷◌, ◌==◌, any, arith, Bool-cases, Option-cases, inl, inr,
}
use mathlib.Core.Path.{subst}
use chatroom_server.Base.Rows.{IsUnique}
use chatroom_server.Action.{Result, Result-cases, ok, err}
use chatroom_server.Db.{Contact, DbError, Session}
use chatroom_server.MemberCache.{MemberCache}
use chatroom_server.World.{World, sql, serve}
use chatroom_server.Room.Model.{Room, is_hot}
use chatroom_server.Room.Rows.{is_contact, upsert_contact}
use chatroom_server.Room.Store as Rooms
use chatroom_server.Room.Store.{bump_one, bump_all}
use chatroom_server.Room.Handler.{mark_read}
use chatroom_server.Message.Model.{Message}
use chatroom_server.Message.Store as Messages
use chatroom_server.Message.Request.{SendRequest, with_room, refusal, new_message}
use chatroom_server.Message.Handler.{
  can_post, resolve_recipients, broadcast, count_unread, others, track_activity, post_message, send,
}
use chatroom_server.Message.Handler.Parts.{
  can_post-frame, resolve_recipients-frame, broadcast-tables,
}
use chatroom_server.Ws.Envelope.{Envelope}
use chatroom_server.Room.RoomList.Counts.{same_contact}

abbrev pub IsKeyed : List Contact → Type 0
IsKeyed cs = IsUnique same_contact cs

module _ (new : Contact) (change : Contact → Contact)
    (same : (c : Contact) → ((change c).uid ≡ c.uid) × ((change c).room_id ≡ c.room_id)) where
  any-upsert :
      (c : Contact) (cs : List Contact)
      → any (same_contact c) (upsert_contact new change cs)
        ≡ (any (same_contact c) cs || same_contact c new)
  any-upsert c [] = ground arith
  any-upsert c (d ∷ cs) = ground (arith, any-upsert c cs, same d)

  any-changed :
      (c : Contact) (cs : List Contact) → any (same_contact (change c)) cs ≡ any (same_contact c) cs
  any-changed c [] = refl
  any-changed c (d ∷ cs) = ground (arith, any-changed c cs, same c)

  -- INSERT … ON DUPLICATE KEY UPDATE keeps the key.
  upsert-IsKeyed : (cs : List Contact) → IsKeyed cs → IsKeyed (upsert_contact new change cs)
  upsert-IsKeyed [] u = (refl, tt)
  upsert-IsKeyed (c ∷ cs) u =
      ground (arith, upsert-IsKeyed cs u.1, any-upsert c cs, any-changed c cs, u.0)

bump_one-IsKeyed :
    (now g : ℕ) (cs : List Contact) (uid : ℕ) → IsKeyed cs → IsKeyed (bump_one now g cs uid)
bump_one-IsKeyed now g cs uid u = upsert-IsKeyed _ _ (λ c. (refl, refl)) cs u

bump_all-IsKeyed :
    (now g : ℕ) (uids : List ℕ) (cs : List Contact) → IsKeyed cs → IsKeyed (bump_all now g uids cs)
unfolding bump_all
bump_all-IsKeyed now g [] cs u = u
bump_all-IsKeyed now g (uid ∷ uids) cs u =
    bump_all-IsKeyed now g uids (bump_one now g cs uid) (bump_one-IsKeyed now g cs uid u)

touch_room-contacts :
    (g id : ℕ) (s : Session) → (Rooms.touch_room g id s).1.tables.contacts ≡ s.tables.contacts
unfolding Rooms.touch_room
touch_room-contacts g id s = ground arith

insert-contacts :
    (m : Message) (s : Session) → (Messages.insert m s).1.tables.contacts ≡ s.tables.contacts
unfolding Messages.insert
insert-contacts m s = ground arith

abbrev pub KeyedIn : Session → Type 0
KeyedIn s = IsKeyed s.tables.contacts

pub bump_unread-IsKeyed :
    (g : ℕ) (uids : List ℕ) (s : Session) → KeyedIn s → KeyedIn (Rooms.bump_unread g uids s).1
unfolding Rooms.bump_unread
bump_unread-IsKeyed g [] s u = u
bump_unread-IsKeyed g (uid ∷ uids) s u = elim (Bool-cases (s.fails s.tick)) [
  | inl down ↦ rw down u
  | inr up ↦ rw up (bump_all-IsKeyed (s.clock s.tick) g (uid ∷ uids) s.tables.contacts u)
]

pub reset_unread-IsKeyed :
    (uid g : ℕ) (s : Session) → KeyedIn s → KeyedIn (Rooms.reset_unread uid g s).1
unfolding Rooms.reset_unread
reset_unread-IsKeyed uid g s u = elim (Bool-cases (s.fails s.tick)) [
  | inl down ↦ rw down u
  | inr up ↦ rw up (upsert-IsKeyed _ _ (λ c. (refl, refl)) s.tables.contacts u)
]

module _ {C : MemberCache} where
  abbrev pub IsKeyedIn : World C → Type 0
  IsKeyedIn w = KeyedIn w.session

  pub IsKeyed-moved :
      (w w' : World C)
      → w'.session.tables.contacts ≡ w.session.tables.contacts
      → IsKeyedIn w
      → IsKeyedIn w'
  IsKeyed-moved w w' e u = subst IsKeyed (sym e) u

  pub mark_read-IsKeyed :
      (uid : ℕ) (room : Option ℕ) (w : World C)
      → IsKeyedIn w
      → IsKeyedIn (serve (mark_read uid room) w).1
  unfolding mark_read
  mark_read-IsKeyed uid none w u = u
  mark_read-IsKeyed uid (some g) w u =
      let w1 = (sql (Rooms.reset_unread uid g) w).1 in
      let u1 = reset_unread-IsKeyed uid g w.session u in
      elim (Result-cases (Rooms.reset_unread uid g w.session).0) [
        | inl (x, e) ↦ IsKeyed-moved w1 (serve (mark_read uid (some g)) w).1 (ground (arith, e)) u1
        | inr (x, e) ↦ IsKeyed-moved w1 (serve (mark_read uid (some g)) w).1 (ground (arith, e)) u1
      ]

  count_unread-IsKeyed :
      (g sender : ℕ) (r : Result DbError (List ℕ)) (w : World C)
      → IsKeyedIn w
      → IsKeyedIn (count_unread g sender (r, w))
  count_unread-IsKeyed g sender (err e) w u = u
  count_unread-IsKeyed g sender (ok uids) w u =
      reset_unread-IsKeyed sender g _ (bump_unread-IsKeyed g (others sender uids) w.session u)

  track_activity-IsKeyed :
      (rm : Room) (sender id : ℕ) (w : World C)
      → IsKeyedIn w
      → IsKeyedIn (track_activity rm sender id w)
  unfolding track_activity
  track_activity-IsKeyed rm sender id w u =
      let w1 = (sql (Rooms.touch_room rm.id id) w).1 in
      let u1 = IsKeyed-moved w w1 (touch_room-contacts rm.id id w.session) u in
      let (r, w2) = resolve_recipients rm w1 in
      let u2 = IsKeyed-moved w1 w2 (ap (λ t. t.contacts) (resolve_recipients-frame w1 rm).0) u1 in
      elim (Bool-cases (is_hot rm)) [
        | inl hot ↦ rw hot u1
        | inr cold ↦ rw cold (count_unread-IsKeyed rm.id sender r w2 u2)
      ]

  module _ (encode : Envelope → Option String) where
    post_message-IsKeyed :
        (uid : ℕ) (req : SendRequest) (rm : Room) (w : World C)
        → IsKeyedIn w
        → IsKeyedIn (serve (post_message encode uid req rm) w).1
    unfolding post_message
    post_message-IsKeyed uid req rm w u =
        let (r, w1) = sql (Messages.insert (new_message uid req)) w in
        let u1 = IsKeyed-moved w w1 (insert-contacts (new_message uid req) w.session) u in
        elim (Result-cases r) [
          | inr (x, e) ↦
              IsKeyed-moved w1 (serve (post_message encode uid req rm) w).1 (ground (arith, e)) u1
          | inl (id, e) ↦
              let msg = record (new_message uid req) { id = id; create_time = w1.now } in
              let w2 = broadcast encode rm msg w1 in
              let u2 =
                IsKeyed-moved w1 w2 (ap (λ t. t.contacts) (broadcast-tables w1 encode rm msg)) u1 in
              IsKeyed-moved (track_activity rm uid id w2)
                (serve (post_message encode uid req rm) w).1 (ground (arith, e))
                (track_activity-IsKeyed rm uid id w2 u2)
        ]

    pub send-IsKeyed :
        (uid : ℕ) (body : Option SendRequest) (w : World C)
        → IsKeyedIn w
        → IsKeyedIn (serve (send encode uid body) w).1
    unfolding send Rooms.get_room
    send-IsKeyed uid body w u = elim (Option-cases (with_room body)) [
      | inl e ↦ IsKeyed-moved w (serve (send encode uid body) w).1 (ground (arith, e)) u
      | inr (req, decoded) ↦ elim (Option-cases (refusal req)) [
        | inr (bad, e) ↦
            IsKeyed-moved w (serve (send encode uid body) w).1 (ground (arith, decoded, e)) u
        | inl fine ↦
            let (r, w1) = sql (Rooms.get_room req.room_id) w in
            elim (Result-cases r) [
              | inr (x, e) ↦
                  IsKeyed-moved w (serve (send encode uid body) w).1
                    (ground (arith, decoded, fine, e)) u
              | inl (rm, e) ↦
                  let (allowed, w2) = can_post rm uid w1 in
                  let u2 = IsKeyed-moved w w2 (ground (arith, can_post-frame w1 rm uid)) u in
                  elim (Bool-cases allowed) [
                    | inr refused ↦
                        IsKeyed-moved w2 (serve (send encode uid body) w).1
                          (ground (arith, decoded, fine, e, refused)) u2
                    | inl may ↦
                        IsKeyed-moved (serve (post_message encode uid req rm) w2).1
                          (serve (send encode uid body) w).1 (ground (arith, decoded, fine, e, may))
                          (post_message-IsKeyed uid req rm w2 u2)
                  ]
            ]
      ]
    ]
