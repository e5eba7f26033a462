-- ===== src/Server/Contacts/Site.antt =====
-- The unread counts that any HTTP requests leave.
use chatroom_server.Base.{ℕ, ◌≡◌, sym, ap, List, [], ◌∷◌, All, arith, inl, inr}
use mathlib.Core.Path.{subst}
use chatroom_server.Action.{ok}
use chatroom_server.MemberCache.{MemberCache}
use chatroom_server.World.{World, serve}
use chatroom_server.Storage.{Store}
use chatroom_server.Auth.Store as Users
use chatroom_server.Auth.Handler.{handle_register, handle_update_profile}
use chatroom_server.Room.Model.{RoomSummary}
use chatroom_server.Room.Requests as Rooms
use chatroom_server.Room.RoomList.{list_rooms_for_user}
use chatroom_server.Room.RoomList.Counts.{list_rooms_for_user-unread}
use chatroom_server.Room.Store.Unread.{unread}
use chatroom_server.Message.Store as Messages
use chatroom_server.Message.Handler.{recall, mark, page}
use chatroom_server.Server.Requests.{
  Parts, Request, Protected, MessageRequest, CallRequest, UserRequest, handle_message, handle_call,
  handle_user, handle_protected, respond,
}
use chatroom_server.Server.Sound.Users.{
  token-Same, invite-Same, handle_lookup-Same, handle_login-Same,
}
use chatroom_server.Server.Run.{Event, request, connect, hang_up, happen, run}
use chatroom_server.Server.Run.Invariants.{middleware-runs}
use chatroom_server.Server.Log.Rooms.{handle-rows}
use chatroom_server.Server.Log.Messages.{recall-contacts}
use chatroom_server.Server.Contacts.{IsKeyedIn, IsKeyed-moved, mark_read-IsKeyed, send-IsKeyed}
use chatroom_server.Server.Site.{Decoders, Site, MediaParts}
use chatroom_server.Server.Site.Events.{Arrival, run_site, run_site-run}

module _ {C : MemberCache} (P : Parts) where
  rooms-IsKeyed :
      (uid : ℕ) (r : Rooms.Request) (w : World C)
      → IsKeyedIn w
      → IsKeyedIn (serve (Rooms.handle uid r) w).1
  rooms-IsKeyed uid r w u = elim (handle-rows uid r w) [
    | inl (room, e) ↦
        subst (λ q. IsKeyedIn (serve (Rooms.handle uid q) w).1) (sym e)
          (mark_read-IsKeyed uid room w u)
    | inr same ↦ IsKeyed-moved w (serve (Rooms.handle uid r) w).1 (ap (λ x. x.1) same) u
  ]

  message-IsKeyed :
      (uid : ℕ) (req : MessageRequest) (w : World C)
      → IsKeyedIn w
      → IsKeyedIn (serve (handle_message P uid req) w).1
  unfolding mark page Messages.add_mark Messages.list_by_room_cursor
  message-IsKeyed uid (MessageRequest.send body) w u = send-IsKeyed P.encode uid body w u
  message-IsKeyed uid (MessageRequest.recall id) w u =
      IsKeyed-moved w (serve (recall P.encode uid id) w).1 (recall-contacts P.encode uid id w) u
  message-IsKeyed uid (MessageRequest.mark id body) w u =
      IsKeyed-moved w (serve (mark uid id body) w).1 (ground arith) u
  message-IsKeyed uid (MessageRequest.page room before limit) w u =
      IsKeyed-moved w (serve (page room before limit) w).1 (ground arith) u

  protected-IsKeyed :
      (uid : ℕ) (req : Protected) (w : World C)
      → IsKeyedIn w
      → IsKeyedIn (serve (handle_protected P req uid) w).1
  unfolding handle_update_profile Users.get_users_by_ids Users.update_profile
  protected-IsKeyed uid (Protected.rooms r) w u = rooms-IsKeyed uid r w u
  protected-IsKeyed uid (Protected.messages r) w u = message-IsKeyed uid r w u
  protected-IsKeyed uid (Protected.calls (CallRequest.token body)) w u =
      IsKeyed-moved w (serve (handle_call P uid (CallRequest.token body)) w).1
        (ap (λ t. t.contacts) (token-Same P.sign P.calls uid body w).0) u
  protected-IsKeyed uid (Protected.calls (CallRequest.invite body)) w u =
      IsKeyed-moved w (serve (handle_call P uid (CallRequest.invite body)) w).1
        (ap (λ t. t.contacts) (invite-Same P.encode uid body w).0) u
  protected-IsKeyed uid (Protected.users (UserRequest.lookup body)) w u =
      IsKeyed-moved w (serve (handle_user P uid (UserRequest.lookup body)) w).1
        (ap (λ t. t.contacts) (handle_lookup-Same body w).0) u
  protected-IsKeyed uid (Protected.users (UserRequest.update_profile body)) w u =
      IsKeyed-moved w (serve (handle_user P uid (UserRequest.update_profile body)) w).1
        (ground arith) u

  respond-IsKeyed :
      (req : Request) (w : World C) → IsKeyedIn w → IsKeyedIn (serve (respond P req) w).1
  unfolding handle_register Users.create_user
  respond-IsKeyed (Request.register body) w u =
      IsKeyed-moved w (serve (respond P (Request.register body)) w).1 (ground arith) u
  respond-IsKeyed (Request.login body) w u =
      IsKeyed-moved w (serve (respond P (Request.login body)) w).1
        (ap (λ t. t.contacts) (handle_login-Same P.collate P.bcrypt P.jwt P.secret P.ttl body w).0)
        u
  respond-IsKeyed (Request.protected header req) w u =
      elim (middleware-runs P.jwt P.secret header (handle_protected P req) w) [
        | inl (uid, (good, e)) ↦
            subst (λ x. IsKeyedIn (serve (λ (v : World C). x) w).1) (sym e)
              (protected-IsKeyed uid req w u)
        | inr e ↦ subst (λ v. IsKeyedIn v) (sym e) u
      ]

  happen-IsKeyed : (e : Event) (w : World C) → IsKeyedIn w → IsKeyedIn (happen P e w)
  happen-IsKeyed (request now req) w u = respond-IsKeyed req (record w { now = now }) u
  happen-IsKeyed (connect token now upgraded) w u = u
  happen-IsKeyed (hang_up uid c) w u = u

  -- Where the contacts have distinct keys, so they have after any requests and connections.
  pub run-IsKeyed : (es : List Event) (w : World C) → IsKeyedIn w → IsKeyedIn (run P es w)
  run-IsKeyed [] w u = u
  run-IsKeyed (e ∷ es) w u = run-IsKeyed es (happen P e w) (happen-IsKeyed e w u)

-- Where the contacts have distinct keys, to begin with: after any HTTP requests and ends of connections,
-- whatever statements fail, each row of a list of rooms that the store then gives shows the unread count
-- that the table has for the user in that room, or 0.
pub run_site-unread :
    {C : MemberCache} {S : Store} (P : Parts) (M : MediaParts) (D : Decoders)
    (arrivals : List Arrival) (s : Site C S)
    → IsKeyedIn s.world
    → (uid : ℕ) (rows : List RoomSummary)
    → let x = (run_site P M D arrivals s).world.session in
      (list_rooms_for_user uid x).0 ≡ ok rows
      → All (λ row. row.unread_count ≡ unread x.tables.contacts uid row.room_id) rows
run_site-unread P M D arrivals s u uid rows e =
    let (es, moved) = run_site-run P M D arrivals s in
    let keyed = subst (λ w. IsKeyedIn w) (sym moved) (run-IsKeyed P es s.world u) in
    list_rooms_for_user-unread uid (run_site P M D arrivals s).world.session rows keyed e
