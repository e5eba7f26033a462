-- ===== src/Call/Handler.antt =====
-- internal/call/handler.go. A request is given by the caller's uid and the decoded body; `none` stands
-- for a decoding error.
pub mod Access
use chatroom_server.Base.{
  ℕ, ◌*◌, String, Bool, not, ◌||◌, Option, none, some, List, [], ◌∷◌, filter, ◌==◌, if◌then◌else◌,
}
use chatroom_server.Action.{Result, ok, err, ◌>>=◌, ◌>>◌, pure, raise_if, or_raise, or_else_raise}
use chatroom_server.MemberCache.{MemberCache}
use chatroom_server.Db.{DbError, Session}
use chatroom_server.World.{World, Handler, sql}
use chatroom_server.Http.{
  Response, write_json, write_error, status_ok, bad_request, forbidden, status_not_found,
  internal_error, done, call_token,
}
use chatroom_server.Room.Model.{Room, Friend, is_group}
use chatroom_server.Room.Role.{is_participant}
use chatroom_server.Room.Store
use chatroom_server.Message.Recall.{second}
use chatroom_server.Message.Handler.{member_uids, others, reading, doing}
use chatroom_server.Call.Model.{Notification}
use chatroom_server.Call.Token.{AccessTokenClaims, room_name, mint_token}
use chatroom_server.Text.Decimal.{format_int}
use chatroom_server.Ws.Envelope.{Envelope, marshal}
use chatroom_server.Ws.Envelope
use chatroom_server.Ws.Hub.{send_to_users}
use text.Mathlib.Text.{◌==◌ as str_eq}

-- What `NewHandler` is given, but for the store and the hub.
pub record Config : Type 0 where
  pub api_key : String
  pub api_secret : String
  pub public_url : String

pub record InviteRequest : Type 0 where
  pub room_id : ℕ
  pub mode : String

-- `err != nil || req.RoomID == 0`
abbrev pub room_of : Option ℕ → Option ℕ
room_of none = none
room_of (some room_id) = if room_id == 0 then none else some room_id

-- The same for an invitation, and the default of `req.Mode`.
abbrev pub with_mode : Option InviteRequest → Option InviteRequest
with_mode none = none
with_mode (some req) =
    if req.room_id == 0
    then none
    else some (record req {
      mode = if str_eq req.mode "audio" || str_eq req.mode "video" then req.mode else "audio";
    })

-- The other user of a conversation.
abbrev pub peer : ℕ → Friend → ℕ
peer uid f = if f.uid1 == uid then f.uid2 else f.uid1

-- `otherParticipants`: nobody, if the query fails.
unfoldable pub other_participants : Room → ℕ → Session → List ℕ × Session
other_participants rm uid s =
    if is_group rm
    then (let (r, s') = Store.list_members rm.id s in
        elim r [ ok ms ↦ (others uid (member_uids ms), s') | err e ↦ ([], s') ])
    else (let (r, s') = Store.get_friend_by_room_id rm.id s in
        elim r [ ok f ↦ (peer uid f ∷ [], s') | err e ↦ ([], s') ])

-- The bytes of a payload: none, if encoding fails.
abbrev pub bytes_of : Option String → String
bytes_of none = ""
bytes_of (some payload) = payload

abbrev pub hour : ℕ
hour = 3600 * second

module _ {C : MemberCache} where
  -- A call that gives a value and a session.
  abbrev pub in_session : {A : Type 0} → (Session → A × Session) → World C → A × World C
  in_session f w = let (a, s) = f w.session in (a, record w { session = s })

  -- The room that the request names, if the caller participates in it.
  unfoldable pub room_of_caller : ℕ → ℕ → Handler C Room
  room_of_caller uid room_id = do
    rm ←
        or_else_raise (sql (Store.get_room room_id)) (write_error status_not_found "room not found")
    allowed ← reading (in_session (is_participant rm uid))
    raise_if (not allowed) (write_error forbidden "not a participant of this room")
    pure rm

  -- `token`
  unfoldable pub token :
      (AccessTokenClaims → String → Option String) → Config → ℕ → Option ℕ → Handler C Response
  token sign config uid body = do
    room_id ← or_raise (room_of body) (write_error bad_request "room_id is required")
    rm ← room_of_caller uid room_id
    now ← reading (λ w. (w.now, w))
    tok ←
        or_raise
          (mint_token sign config.api_key config.api_secret (format_int uid) (room_name room_id)
            hour now)
          (write_error internal_error "failed to mint token")
    pure (write_json status_ok (call_token tok config.public_url))

  -- The push of an invitation.
  unfoldable pub push_invite :
      (Envelope → Option String) → ℕ → InviteRequest → Room → World C → World C
  push_invite encode uid req rm w =
      let (uids, w') = in_session (other_participants rm uid) w in
      let note : Notification = record { room_id = req.room_id; from_uid = uid; mode = req.mode } in
      let payload = marshal encode "call_invite" (Envelope.notification note) in
      record w' { hub = send_to_users uids (bytes_of payload) w'.hub }

  -- `invite`
  unfoldable pub invite : (Envelope → Option String) → ℕ → Option InviteRequest → Handler C Response
  invite encode uid body = do
    req ← or_raise (with_mode body) (write_error bad_request "room_id is required")
    rm ← room_of_caller uid req.room_id
    doing (push_invite encode uid req rm)
    pure (write_json status_ok done)
