-- ===== src/Room/Store/FriendRoom.antt =====
-- `GetOrCreateFriendRoom` of internal/room/store.go: one room for each pair of users, in either order.
use chatroom_server.Base.{
  ℕ, ◌≡◌, ◌≢◌, true, false, ◌&&◌, Option, some, ltb, ◌==◌, if◌then◌else◌, find?, any, arith,
  Bool-cases, inl, inr,
}
use mathlib.Core.Option
use chatroom_server.Action.{ok, err}
use chatroom_server.Db.{Session, Tables, no_rows}
use chatroom_server.Room.Model.{Friend}
use chatroom_server.Room.Store.{
  find_friend_room, create_friend_room, ordered_friend_room, get_or_create_friend_room,
}
use chatroom_server.Room.Rows.{is_pair, is_friend_of}

-- The room that the table has for the two users, the smaller uid first.
abbrev pub friend_room : Tables → ℕ → ℕ → Option ℕ
friend_room t a b =
    Option.map (λ (f : Friend). f.room_id)
      (find? (if ltb b a then is_pair b a else is_pair a b) t.friends)

abbrev pair_room : Tables → ℕ → ℕ → Option ℕ
pair_room t a b = Option.map (λ (f : Friend). f.room_id) (find? (is_pair a b) t.friends)

created :
    (a b : ℕ) (s : Session) (r : ℕ)
    → (create_friend_room a b s).0 ≡ ok r
    → pair_room (create_friend_room a b s).1.tables a b ≡ some r
unfolding create_friend_room
created a b s r h = ground arith

ordered-found :
    (a b : ℕ) (s : Session) (r : ℕ)
    → (ordered_friend_room a b s).0 ≡ ok r
    → pair_room (ordered_friend_room a b s).1.tables a b ≡ some r
unfolding find_friend_room
ordered-found a b s r h = ground (arith, created a b (find_friend_room a b s).1 r)

ordered-again :
    (a b : ℕ) (s : Session) (r : ℕ)
    → pair_room s.tables a b ≡ some r
    → s.fails s.tick ≡ false
    → ((ordered_friend_room a b s).0 ≡ ok r) × ((ordered_friend_room a b s).1.tables ≡ s.tables)
unfolding find_friend_room
ordered-again a b s r h up = ground arith

-- `GetOrCreateFriendRoom` does the same whichever of the two users is named first.
pub get_or_create_friend_room_comm :
    (a b : ℕ) (s : Session) → get_or_create_friend_room a b s ≡ get_or_create_friend_room b a s
unfolding get_or_create_friend_room
get_or_create_friend_room_comm a b s = elim (Bool-cases (a == b)) [
  | inl e ↦ ground arith
  | inr ne ↦ elim (Bool-cases (ltb b a)) [ inl lt ↦ ground arith | inr ge ↦ ground arith ]
]

-- A room that `GetOrCreateFriendRoom` returns is the one that the table has for the two users afterwards.
pub get_or_create_friend_room-friend_room :
    (a b : ℕ) (s : Session) (r : ℕ)
    → (get_or_create_friend_room a b s).0 ≡ ok r
    → friend_room (get_or_create_friend_room a b s).1.tables a b ≡ some r
unfolding get_or_create_friend_room
get_or_create_friend_room-friend_room a b s r h =
    ground (arith, ordered-found a b s r, ordered-found b a s r)

-- Where two different users have a room, and the query does not fail, `GetOrCreateFriendRoom` with the
-- users in the other order returns that room and changes no table.
pub get_or_create_friend_room_again :
    (a b : ℕ) (s : Session) (r : ℕ)
    → a ≢ b
    → friend_room s.tables a b ≡ some r
    → s.fails s.tick ≡ false
    → ((get_or_create_friend_room b a s).0 ≡ ok r)
      × ((get_or_create_friend_room b a s).1.tables ≡ s.tables)
unfolding get_or_create_friend_room
get_or_create_friend_room_again a b s r ne h up =
    ground (arith, ordered-again a b s r, ordered-again b a s r)

-- The query and the creation are not one transaction. Two calls for the same pair that both look
-- before either creates a room end with two rooms, which no unique key forbids.
pub create_friend_room-twice :
    (a b r1 r2 : ℕ) (s s1 s2 s3 s4 : Session)
    → find_friend_room a b s ≡ (err no_rows, s1)
    → find_friend_room a b s1 ≡ (err no_rows, s2)
    → create_friend_room a b s2 ≡ (ok r1, s3)
    → create_friend_room a b s3 ≡ (ok r2, s4)
    → (r1 ≢ r2)
      × (any (λ f. is_pair a b f && is_friend_of r1 f) s4.tables.friends ≡ true)
      × (any (λ f. is_pair a b f && is_friend_of r2 f) s4.tables.friends ≡ true)
unfolding create_friend_room
create_friend_room-twice a b r1 r2 s s1 s2 s3 s4 e1 e2 c1 c2 =
    (ground arith, ground arith, ground arith)
