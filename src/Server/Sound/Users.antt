-- ===== src/Server/Sound/Users.antt =====
-- The handlers of internal/call/handler.go and internal/auth/handler.go.
use chatroom_server.Base.{
  ℕ, ◌≡◌, refl, String, Option, none, some, List, arith, Option-cases, inl, inr, find?,
}
use chatroom_server.Action.{Result-cases}
use chatroom_server.Db.{Session}
use chatroom_server.MemberCache.{MemberCache}
use chatroom_server.World.{World, serve}
use chatroom_server.Room.Model.{Room, Member}
use chatroom_server.Room.Store as Rooms
use chatroom_server.Room.Rows.{has_id}
use chatroom_server.Call.Handler.Access.{is_participant-tables}
use chatroom_server.Call.Token.{AccessTokenClaims}
use chatroom_server.Call.Handler.{
  Config, InviteRequest, with_mode, other_participants, room_of_caller, token, push_invite, invite,
}
use chatroom_server.Auth.Token.{Jwt}
use chatroom_server.Auth.Store as Users
use chatroom_server.Auth.Handler.{
  RegisterRequest, LoginRequest, UpdateProfileRequest, Bcrypt, handle_register, handle_login,
  handle_lookup, handle_update_profile,
}
use chatroom_server.Ws.Envelope.{Envelope}
use chatroom_server.Server.Sound.{IsKept, IsKept-frame}

other_participants-tables :
    (rm : Room) (uid : ℕ) (s : Session) → (other_participants rm uid s).1.tables ≡ s.tables
unfolding other_participants Rooms.list_members Rooms.get_friend_by_room_id
other_participants-tables rm uid s = ground arith

module _ {C : MemberCache} where
  abbrev Same : World C → World C → Type 0
  Same w w' = (w'.session.tables ≡ w.session.tables) × (w'.cache ≡ w.cache)

  room_of_caller-Same : (uid k : ℕ) (w : World C) → Same w (room_of_caller uid k w).1
  unfolding room_of_caller Rooms.get_room
  room_of_caller-Same uid k w = elim (Option-cases (find? (has_id k) w.session.tables.rooms)) [
    | inl missing ↦ ground (arith, missing)
    | inr (rm, found) ↦
        ground (arith, found, is_participant-tables rm uid (Rooms.get_room k w.session).1)
  ]

  pub token-Same :
      (sign : AccessTokenClaims → String → Option String) (config : Config) (uid : ℕ)
      (body : Option ℕ) (w : World C)
      → Same w (serve (token sign config uid body) w).1
  unfolding token
  token-Same sign config uid none w = (refl, refl)
  token-Same sign config uid (some k) w = ground (arith, room_of_caller-Same uid k w)

  push_invite-Same :
      (encode : Envelope → Option String) (uid : ℕ) (req : InviteRequest) (rm : Room) (w : World C)
      → Same w (push_invite encode uid req rm w)
  unfolding push_invite
  push_invite-Same encode uid req rm w = (other_participants-tables rm uid w.session, refl)

  pub invite-Same :
      (encode : Envelope → Option String) (uid : ℕ) (body : Option InviteRequest) (w : World C)
      → Same w (serve (invite encode uid body) w).1
  unfolding invite
  invite-Same encode uid none w = (refl, refl)
  invite-Same encode uid (some body) w = elim (Option-cases (with_mode (some body))) [
    | inl e ↦ ground (arith, e)
    | inr (req, e) ↦
        let (r, w1) = room_of_caller uid req.room_id w in
        let (t, c) = room_of_caller-Same uid req.room_id w in
        elim (Result-cases r) [
          | inr (x, f) ↦ ground (arith, e, f, t, c)
          | inl (rm, f) ↦ ground (arith, e, f, t, c, push_invite-Same encode uid req rm w1)
        ]
  ]

  pub handle_lookup-Same :
      (body : Option (List ℕ)) (w : World C) → Same w (serve (handle_lookup body) w).1
  unfolding handle_lookup Users.get_users_by_ids
  handle_lookup-Same body w = ground arith

  pub handle_login-Same :
      (collate : String → String) (bcrypt : Bcrypt) (jwt : Jwt) (secret : String) (ttl : ℕ)
      (body : Option LoginRequest) (w : World C)
      → Same w (serve (handle_login collate bcrypt jwt secret ttl body) w).1
  unfolding handle_login Users.get_user_by_username
  handle_login-Same collate bcrypt jwt secret ttl body w = ground arith

  module _ (members : List Member) (next : ℕ) where
    pub handle_register-Kept :
        (collate : String → String) (bcrypt : Bcrypt) (body : Option RegisterRequest) (w : World C)
        → IsKept C members next w
        → IsKept C members next (serve (handle_register collate bcrypt body) w).1
    unfolding handle_register Users.create_user
    handle_register-Kept collate bcrypt body w p =
        IsKept-frame w _ (ground arith) (ground arith) (ground arith) (λ k. ground arith) p

    pub handle_update_profile-Kept :
        (uid : ℕ) (body : Option UpdateProfileRequest) (w : World C)
        → IsKept C members next w
        → IsKept C members next (serve (handle_update_profile uid body) w).1
    unfolding handle_update_profile Users.get_users_by_ids Users.update_profile
    handle_update_profile-Kept uid body w p =
        IsKept-frame w _ (ground arith) (ground arith) (ground arith) (λ k. ground arith) p
