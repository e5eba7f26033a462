-- ===== src/Server/Log/Run.antt =====
-- The messages while the server is at work.
use chatroom_server.Base.{
  ℕ, ◌≡◌, ◌⊎◌, refl, sym, ap, Option, some, List, [], ◌∷◌, find?, arith, inl, inr,
}
use mathlib.Core.Path.{subst}
use chatroom_server.MemberCache.{MemberCache}
use chatroom_server.World.{World, serve}
use chatroom_server.Auth.Store as Users
use chatroom_server.Auth.Handler.{RegisterRequest, handle_register, handle_update_profile}
use chatroom_server.Message.Model.{Message, Status, status_deleted}
use chatroom_server.Message.Store.{has_msg_id, with_status}
use chatroom_server.Server.Requests.{
  Parts, Request, Protected, MessageRequest, CallRequest, UserRequest, handle_message, handle_call,
  handle_user, handle_protected, respond,
}
use chatroom_server.Server.Sound.Users.{
  token-Same, invite-Same, handle_lookup-Same, handle_login-Same,
}
use chatroom_server.Server.Run.{Event, request, connect, hang_up, happen, run}
use chatroom_server.Server.Run.Invariants.{middleware-runs}
use chatroom_server.Server.Log.{
  log_of, Changes, IsNumbered, Holds, Changes-IsNumbered, Changes-Holds,
}
use chatroom_server.Server.Log.Rooms.{handle-log}
use chatroom_server.Server.Log.Messages.{mark-log, page-log, send-Changes, recall-Changes}

module _ {C : MemberCache} (P : Parts) where
  abbrev Steps : World C → World C → Type 0
  Steps w w' = Changes (log_of w.session.tables) (log_of w'.session.tables)

  message-Steps :
      (uid : ℕ) (req : MessageRequest) (w : World C)
      → Steps w (serve (handle_message P uid req) w).1
  message-Steps uid (MessageRequest.send body) w = send-Changes P.encode uid body w
  message-Steps uid (MessageRequest.recall id) w = recall-Changes P.encode uid id w
  message-Steps uid (MessageRequest.mark id body) w = inl (mark-log uid id body w)
  message-Steps uid (MessageRequest.page room before limit) w = inl (page-log room before limit w)

  call-Steps :
      (uid : ℕ) (req : CallRequest) (w : World C) → Steps w (serve (handle_call P uid req) w).1
  call-Steps uid (CallRequest.token body) w =
      inl (ap log_of (token-Same P.sign P.calls uid body w).0)
  call-Steps uid (CallRequest.invite body) w = inl (ap log_of (invite-Same P.encode uid body w).0)

  user-Steps :
      (uid : ℕ) (req : UserRequest) (w : World C) → Steps w (serve (handle_user P uid req) w).1
  unfolding handle_update_profile Users.get_users_by_ids Users.update_profile
  user-Steps uid (UserRequest.lookup body) w = inl (ap log_of (handle_lookup-Same body w).0)
  user-Steps uid (UserRequest.update_profile body) w = inl (ground arith)

  protected-Steps :
      (uid : ℕ) (req : Protected) (w : World C) → Steps w (serve (handle_protected P req uid) w).1
  protected-Steps uid (Protected.rooms r) w = inl (handle-log uid r w)
  protected-Steps uid (Protected.messages r) w = message-Steps uid r w
  protected-Steps uid (Protected.calls r) w = call-Steps uid r w
  protected-Steps uid (Protected.users r) w = user-Steps uid r w

  register-log :
      (body : Option RegisterRequest) (w : World C)
      → log_of (serve (handle_register P.collate P.bcrypt body) w).1.session.tables
        ≡ log_of w.session.tables
  unfolding handle_register Users.create_user
  register-log body w = ground arith

  respond-Steps : (req : Request) (w : World C) → Steps w (serve (respond P req) w).1
  respond-Steps (Request.register body) w = inl (register-log body w)
  respond-Steps (Request.login body) w =
      inl (ap log_of (handle_login-Same P.collate P.bcrypt P.jwt P.secret P.ttl body w).0)
  respond-Steps (Request.protected header req) w =
      elim (middleware-runs P.jwt P.secret header (handle_protected P req) w) [
        | inl (uid, (good, e)) ↦
            subst (λ x. Steps w (serve (λ (v : World C). x) w).1) (sym e)
              (protected-Steps uid req w)
        | inr e ↦ subst (λ v. Steps w v) (sym e) (inl refl)
      ]

  happen-Steps : (e : Event) (w : World C) → Steps w (happen P e w)
  happen-Steps (request now req) w = respond-Steps req (record w { now = now })
  happen-Steps (connect token now upgraded) w = inl refl
  happen-Steps (hang_up uid c) w = inl refl

  abbrev pub IsNumberedIn : World C → Type 0
  IsNumberedIn w = IsNumbered (log_of w.session.tables)

  -- Where the messages have distinct positive ids below the next one, so they have after any requests and
  -- connections, whatever statements and cache calls fail.
  pub run-IsNumbered : (es : List Event) (w : World C) → IsNumberedIn w → IsNumberedIn (run P es w)
  run-IsNumbered [] w p = p
  run-IsNumbered (e ∷ es) w p =
      run-IsNumbered es (happen P e w) (Changes-IsNumbered _ _ (happen-Steps e w) p)

  held :
      (es : List Event) (w : World C) (m : Message)
      → IsNumberedIn w
      → Holds m (log_of w.session.tables)
      → Holds m (log_of (run P es w).session.tables)
  held [] w m p h = h
  held (e ∷ es) w m p h =
      held es (happen P e w) m (Changes-IsNumbered _ _ (happen-Steps e w) p)
        (Changes-Holds m _ _ (happen-Steps e w) p h)

  -- Where the messages have distinct positive ids below the next one: a stored message stays stored under
  -- its id through any requests of any users and any connections, with its room, its sender, its time and
  -- its content, whatever statements fail; its status stays too, or becomes that of a deleted message.
  pub run-Holds :
      (es : List Event) (w : World C) (m : Message)
      → IsNumberedIn w
      → find? (has_msg_id m.id) w.session.tables.messages ≡ some m
      → (st : Status) × (((st ≡ m.status) ⊎ (st ≡ status_deleted))
          × (find? (has_msg_id m.id) (run P es w).session.tables.messages
              ≡ some (with_status st m)))
  run-Holds es w m p e = held es w m p (m.status, (inl refl, e))
