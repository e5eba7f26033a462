-- ===== src/Server/Run/Invariants.antt =====
-- What holds whatever the users ask of the server.
use chatroom_server.Base.{
  ℕ, ◌≡◌, ◌⊎◌, refl, sym, ap, ◌∙◌, String, true, Option, some, List, [], ◌∷◌, arith, Bool-cases,
  Option-cases, inl, inr,
}
use mathlib.Core.Path.{subst}
use chatroom_server.MemberCache.{MemberCache, IsCache}
use chatroom_server.World.{World, Handler, serve}
use chatroom_server.Http.{Response}
use chatroom_server.Room.Model.{Member}
use chatroom_server.Room.Requests as Rooms
use chatroom_server.Message.Request.{SendRequest, with_room}
use chatroom_server.Message.Handler.Send.{may_send, send-authorised}
use chatroom_server.Auth.Token.{Jwt, bearer, parse_token, middleware}
use chatroom_server.Auth.Token.Bearer.{middleware-checks}
use chatroom_server.Coherence.Invalidation.{IsUp}
use chatroom_server.Server.Requests.{
  Parts, Request, Protected, MessageRequest, CallRequest, UserRequest, handle_message, handle_call,
  handle_user, handle_protected, respond,
}
use chatroom_server.Server.Sound.{IsSound, IsKept, IsKept-tables}
use chatroom_server.Server.Sound.Posting.{send-Kept, recall-Kept, mark-Kept, page-Kept}
use chatroom_server.Server.Sound.Users.{
  token-Same, invite-Same, handle_lookup-Same, handle_login-Same, handle_register-Kept,
  handle_update_profile-Kept,
}
use chatroom_server.Server.Sound.Rooms.{handle-IsSound}
use chatroom_server.Server.Run.{Event, request, connect, hang_up, answer, happen, run}
use text.Mathlib.Text.{starts_with}
use Prim.Native.String.{slice, len}
use Prim.Native.String.{◌++◌}

-- The user whom the token of a header names.
abbrev pub caller : Jwt → String → String → ℕ → Option ℕ
caller jwt secret header now = parse_token jwt (slice header (len bearer) (len header)) secret now

-- The middleware runs the handler for some user, or leaves the world as it is.
pub middleware-runs :
    {C : MemberCache} (jwt : Jwt) (secret header : String) (next : ℕ → Handler C Response)
    (w : World C)
    → ((uid : ℕ) × ((caller jwt secret header w.now ≡ some uid)
          × (middleware jwt secret next header w ≡ next uid w)))
      ⊎ ((serve (middleware jwt secret next header) w).1 ≡ w)
unfolding middleware
middleware-runs jwt secret header next w = elim (Bool-cases (starts_with header bearer)) [
  | inr e ↦ inr (ground (arith, e))
  | inl e ↦ elim (Option-cases (caller jwt secret header w.now)) [
    | inl bad ↦ inr (ground (arith, e, bad))
    | inr (uid, good) ↦ inl (uid, (good, ground (arith, e, good)))
  ]
]

module _ {C : MemberCache} (lawful : IsCache C) (P : Parts) where
  module _ (members : List Member) (next : ℕ) where
    abbrev Kept : World C → Type 0
    Kept = IsKept C members next

    message-Kept :
        (uid : ℕ) (req : MessageRequest) (w : World C)
        → Kept w
        → Kept (serve (handle_message P uid req) w).1
    message-Kept uid (MessageRequest.send body) w p =
        send-Kept lawful members next P.encode uid body w p
    message-Kept uid (MessageRequest.recall id) w p =
        recall-Kept lawful members next P.encode uid id w p
    message-Kept uid (MessageRequest.mark id body) w p =
        mark-Kept lawful members next uid id body w p
    message-Kept uid (MessageRequest.page room before limit) w p =
        page-Kept lawful members next room before limit w p

    call-Kept :
        (uid : ℕ) (req : CallRequest) (w : World C)
        → Kept w
        → Kept (serve (handle_call P uid req) w).1
    call-Kept uid (CallRequest.token body) w p =
        IsKept-tables w _ (token-Same P.sign P.calls uid body w) p
    call-Kept uid (CallRequest.invite body) w p =
        IsKept-tables w _ (invite-Same P.encode uid body w) p

    user-Kept :
        (uid : ℕ) (req : UserRequest) (w : World C)
        → Kept w
        → Kept (serve (handle_user P uid req) w).1
    user-Kept uid (UserRequest.lookup body) w p = IsKept-tables w _ (handle_lookup-Same body w) p
    user-Kept uid (UserRequest.update_profile body) w p =
        handle_update_profile-Kept members next uid body w p

  -- A sound world keeps what it has, to begin with.
  pub kept :
      (w : World C) → IsSound C w → IsKept C w.session.tables.members w.session.tables.next.room w
  kept w p = record { sound = p; same_members = refl; same_next = refl }

  -- What does not go to a handler of a room.
  module _ (w : World C) (p : IsSound C w) where
    abbrev pub KeptFrom : World C → Type 0
    KeptFrom = IsKept C w.session.tables.members w.session.tables.next.room

    -- Every request but that of a room keeps the members.
    pub protected-KeptFrom :
        (uid : ℕ) (req : Protected)
        → ((r : Rooms.Request) × (req ≡ Protected.rooms r))
          ⊎ KeptFrom (serve (handle_protected P req uid) w).1
    protected-KeptFrom uid (Protected.rooms r) = inl (r, refl)
    protected-KeptFrom uid (Protected.messages r) = inr (message-Kept _ _ uid r w (kept w p))
    protected-KeptFrom uid (Protected.calls r) = inr (call-Kept _ _ uid r w (kept w p))
    protected-KeptFrom uid (Protected.users r) = inr (user-Kept _ _ uid r w (kept w p))

    -- The world at another time, or with another hub.
    pub elsewhere :
        (w' : World C)
        → (w'.session.tables ≡ w.session.tables) × (w'.cache ≡ w.cache)
        → IsSound C w'
    elsewhere w' same = (IsKept-tables w w' same (kept w p)).sound

  module _ (up : IsUp C) where
    protected-IsSound :
        (uid : ℕ) (req : Protected) (w : World C)
        → IsSound C w
        → IsSound C (serve (handle_protected P req uid) w).1
    protected-IsSound uid req w p = elim (protected-KeptFrom w p uid req) [
      | inl (r, e) ↦
          subst (λ q. IsSound C (serve (handle_protected P q uid) w).1) (sym e)
            (handle-IsSound lawful up uid r w p)
      | inr k ↦ k.sound
    ]

    respond-IsSound :
        (req : Request) (w : World C) → IsSound C w → IsSound C (serve (respond P req) w).1
    respond-IsSound (Request.register body) w p =
        (handle_register-Kept _ _ P.collate P.bcrypt body w (kept w p)).sound
    respond-IsSound (Request.login body) w p =
        elsewhere w p _ (handle_login-Same P.collate P.bcrypt P.jwt P.secret P.ttl body w)
    respond-IsSound (Request.protected header req) w p =
        elim (middleware-runs P.jwt P.secret header (handle_protected P req) w) [
          | inl (uid, (good, e)) ↦
              subst (λ x. IsSound C (serve (λ (v : World C). x) w).1) (sym e)
                (protected-IsSound uid req w p)
          | inr e ↦ subst (λ v. IsSound C v) (sym e) p
        ]

    pub happen-IsSound : (e : Event) (w : World C) → IsSound C w → IsSound C (happen P e w)
    happen-IsSound (request now req) w p =
        respond-IsSound req (record w { now = now }) (elsewhere w p _ (refl, refl))
    happen-IsSound (connect token now upgraded) w p = elsewhere w p _ (refl, refl)
    happen-IsSound (hang_up uid c) w p = elsewhere w p _ (refl, refl)

    -- With a cache that keeps its laws, is in use and whose server takes every invalidation, and from a
    -- sound world: whatever requests and connections follow one another, and whatever statements fail, the
    -- cache stays in step with the tables, and the rooms stay numbered below the table's counter.
    pub run-IsSound : (es : List Event) (w : World C) → IsSound C w → IsSound C (run P es w)
    run-IsSound [] w p = p
    run-IsSound (e ∷ es) w p = run-IsSound es (happen P e w) (happen-IsSound e w p)

    -- With a cache that keeps its laws, is in use and whose server takes every invalidation, and from a
    -- sound world: after any events, whoever gets a message sent with status 200 has presented a valid
    -- token, and its user participates in the message's room, as the tables stand when the request comes in.
    pub run-send_authorised :
        (es : List Event) (w : World C)
        → IsSound C w
        → (now : ℕ) (header : String) (body : Option SendRequest) (req : SendRequest)
        → with_room body ≡ some req
        → (answer P now
            (Request.protected header (Protected.messages (MessageRequest.send body)))
            (run P es w)).0.status
          ≡ 200
        → (t : String) × ((uid : ℕ) × ((header ≡ bearer ++ t)
              × ((parse_token P.jwt t P.secret now ≡ some uid)
                  × (may_send (run P es w).session.tables uid req.room_id ≡ true))))
    run-send_authorised es w p now header body req decoded h =
        let v = record (run P es w) { now = now } in
        let sound = elsewhere (run P es w) (run-IsSound es w p) v (refl, refl) in
        let (t, uid, split, good, runs) =
          middleware-checks P.jwt P.secret
            (handle_protected P (Protected.messages (MessageRequest.send body))) v header
            (ground (arith, h)) in
        let answered = sym (ap (λ x. (serve (λ (y : World C). x) v).0.status) runs) ∙ h in
        (
          t,
          (
            uid,
            (
              split,
              (
                good,
                (send-authorised P.encode uid body v req decoded lawful sound.coherent answered).0,
              ),
            ),
          ),
        )
