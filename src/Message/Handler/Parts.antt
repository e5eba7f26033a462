-- ===== src/Message/Handler/Parts.antt =====
-- What the parts of `send` leave alone: internal/message/handler.go.
use chatroom_server.Base.{ℕ, ◌≡◌, refl, String, Option, List, [], ◌∷◌, arith}
use chatroom_server.Action.{Result, ok, err}
use chatroom_server.Db.{DbError, Session}
use chatroom_server.MemberCache.{MemberCache}
use chatroom_server.World.{World, sql}
use chatroom_server.Room.Model.{Room}
use chatroom_server.Room.Store
use chatroom_server.Message.Model.{Message}
use chatroom_server.Message.Handler.{
  group_member_uids, resolve_recipients, can_post, broadcast, track_activity, count_unread, others,
}
use chatroom_server.Ws.Envelope.{Envelope}

module _ {C : MemberCache} (w : World C) where
  -- Reading the members touches neither the tables nor the hub.
  pub group_member_uids-frame :
      (g : ℕ)
      → let w' = (group_member_uids g w).1 in
        (w'.session.tables ≡ w.session.tables) × (w'.hub ≡ w.hub) × (w'.now ≡ w.now)
  unfolding group_member_uids Store.list_members
  group_member_uids-frame g = ground arith

  pub resolve_recipients-frame :
      (rm : Room)
      → let w' = (resolve_recipients rm w).1 in
        (w'.session.tables ≡ w.session.tables) × (w'.hub ≡ w.hub) × (w'.now ≡ w.now)
  unfolding resolve_recipients Store.get_friend_by_room_id
  resolve_recipients-frame rm = ground (arith, group_member_uids-frame rm.id)

  pub can_post-frame :
      (rm : Room) (uid : ℕ)
      → let w' = (can_post rm uid w).1 in
        (w'.session.tables ≡ w.session.tables) × (w'.hub ≡ w.hub) × (w'.now ≡ w.now)
  unfolding can_post Store.get_friend_by_room_id
  can_post-frame rm uid = ground (arith, group_member_uids-frame rm.id)

  -- A push changes no table.
  pub broadcast-tables :
      (encode : Envelope → Option String) (rm : Room) (msg : Message)
      → (broadcast encode rm msg w).session.tables ≡ w.session.tables
  unfolding broadcast
  broadcast-tables encode rm msg = ground (arith, resolve_recipients-frame rm)

pub bump_unread-frame :
    (g : ℕ) (uids : List ℕ) (s : Session)
    → (Store.bump_unread g uids s).1.tables
      ≡ record (s.tables) { contacts = (Store.bump_unread g uids s).1.tables.contacts }
unfolding Store.bump_unread
bump_unread-frame g [] s = refl
bump_unread-frame g (uid ∷ uids) s = ground arith

pub reset_unread-frame :
    (uid g : ℕ) (s : Session)
    → (Store.reset_unread uid g s).1.tables
      ≡ record (s.tables) { contacts = (Store.reset_unread uid g s).1.tables.contacts }
unfolding Store.reset_unread
reset_unread-frame uid g s = ground arith

module _ {C : MemberCache} where
  count_unread-frame :
      (g sender : ℕ) (r : Result DbError (List ℕ)) (w : World C)
      → let w' = count_unread g sender (r, w) in
        (w'.session.tables ≡ record (w.session.tables) { contacts = w'.session.tables.contacts })
        × (w'.hub ≡ w.hub)
  count_unread-frame g sender (err e) w = (refl, refl)
  count_unread-frame g sender (ok uids) w = ground (
    arith,
    bump_unread-frame g (others sender uids) w.session,
    reset_unread-frame sender g (Store.bump_unread g (others sender uids) w.session).1,
  )

  -- Counting touches the rows of the rooms and of the contacts, and nothing else.
  pub track_activity-frame :
      (rm : Room) (sender id : ℕ) (w : World C)
      → let w' = track_activity rm sender id w in
        (w'.session.tables ≡ record (w.session.tables) {
          contacts = w'.session.tables.contacts;
          rooms = (Store.touch_room rm.id id w.session).1.tables.rooms;
        })
        × (w'.hub ≡ w.hub)
  unfolding track_activity Store.touch_room
  track_activity-frame rm sender id w =
      let w1 = (sql (Store.touch_room rm.id id) w).1 in
      let (r, w2) = resolve_recipients rm w1 in
      ground (arith, resolve_recipients-frame w1 rm, count_unread-frame rm.id sender r w2)
