-- ===== src/Call/Handler/Access.antt =====
-- Who gets a token, who may invite and who hears of it: internal/call/handler.go.
use chatroom_server.Base.{
  ℕ, ◌≡◌, ◌≢◌, String, Bool, true, false, not, ◌&&◌, Option, some, List, [], ◌∷◌, ◌==◌,
  if◌then◌else◌, find?, any, contains, filter, arith, Option-cases, inl, inr, refl,
}
use chatroom_server.Base.Rows.{find?-any}
use chatroom_server.Db.{Tables, Session}
use chatroom_server.MemberCache.{MemberCache}
use chatroom_server.World.{World, serve, sql}
use chatroom_server.Http.{Response}
use chatroom_server.Room.Model.{Room, Friend, is_group}
use chatroom_server.Room.Role.{is_participant}
use chatroom_server.Room.Store
use chatroom_server.Room.Rows.{is_member, is_friend_of, has_id, in_group, member_before}
use chatroom_server.Base.Sort.{sort_by}
use chatroom_server.Coherence.{listed}
use chatroom_server.Coherence.Post.{participates, has_party}
use chatroom_server.Message.Handler.{others, member_uids}
use chatroom_server.Message.Handler.Send.{may_send}
use chatroom_server.Call.Token.{AccessTokenClaims, claims_of, room_name}
use chatroom_server.Text.Decimal.{format_int}
use chatroom_server.Call.Handler.{
  Config, InviteRequest, with_mode, other_participants, hour, room_of_caller, push_invite, invite,
  bytes_of, in_session,
}
use chatroom_server.Ws.Envelope.{Envelope, marshal}
use chatroom_server.Ws.Envelope
use chatroom_server.Ws.Hub.{conns_of}
use chatroom_server.Ws.Hub.Delivery.{deliveries, deliveries-send, held_by-none}

-- `IsParticipant` answers true only for a participant, whatever statements fail.
is_participant-participates :
    (rm : Room) (uid : ℕ) (s : Session)
    → (is_participant rm uid s).0 ≡ true
    → participates s.tables rm uid ≡ true
unfolding is_participant Store.get_member Store.get_friend_by_room_id
is_participant-participates rm uid s h =
    ground (arith, find?-any (is_member rm.id uid) s.tables.members)

pub is_participant-tables :
    (rm : Room) (uid : ℕ) (s : Session) → (is_participant rm uid s).1.tables ≡ s.tables
unfolding is_participant Store.get_member Store.get_friend_by_room_id
is_participant-tables rm uid s = ground arith

module _ {C : MemberCache} (sign : AccessTokenClaims → String → Option String) (config : Config)
    (uid : ℕ) (w : World C) where
  abbrev pub claims : ℕ → AccessTokenClaims
  claims g = claims_of config.api_key (format_int uid) (room_name g) hour w.now

-- The user is a member of the group, or one of the two of the conversation; the hot flag does not count.
abbrev pub is_listed : Tables → Room → ℕ → Bool
is_listed t rm u =
    if is_group rm
    then any (is_member rm.id u) t.members
    else has_party u (find? (is_friend_of rm.id) t.friends)

contains-others :
    (uid u : ℕ) (us : List ℕ) → contains (others uid us) u ≡ (contains us u && not (u == uid))
contains-others uid u [] = refl
contains-others uid u (v ∷ us) = ground (arith, contains-others uid u us)

-- Whatever statements fail, `otherParticipants` lists nobody from outside the room.
other_participants-is_listed :
    (rm : Room) (uid u : ℕ) (s : Session)
    → contains (other_participants rm uid s).0 u ≡ true
    → is_listed s.tables rm u ≡ true
unfolding other_participants Store.list_members Store.get_friend_by_room_id
other_participants-is_listed rm uid u s h = ground (
  arith,
  contains-others uid u
      (member_uids (sort_by member_before (filter (in_group rm.id) s.tables.members))),
  listed rm.id u s.tables.members,
)

-- In a room whose query does not fail, that lists the caller, and whose conversation, if it is one, is
-- between two users, `otherParticipants` lists exactly the users of the room but for the caller.
pub other_participants-exact :
    (rm : Room) (uid u : ℕ) (s : Session)
    → s.fails s.tick ≡ false
    → is_listed s.tables rm uid ≡ true
    → ((f : Friend) → find? (is_friend_of rm.id) s.tables.friends ≡ some f → f.uid1 ≢ f.uid2)
    → contains (other_participants rm uid s).0 u ≡ (is_listed s.tables rm u && not (u == uid))
unfolding other_participants Store.list_members Store.get_friend_by_room_id
other_participants-exact rm uid u s up caller two =
    elim (Option-cases (find? (is_friend_of rm.id) s.tables.friends)) [
      | inl e ↦ ground (
        arith,
        e,
        up,
        contains-others uid u
            (member_uids (sort_by member_before (filter (in_group rm.id) s.tables.members))),
        listed rm.id u s.tables.members,
      )
      | inr (f, e) ↦ ground (
        arith,
        e,
        up,
        two f e,
        contains-others uid u
            (member_uids (sort_by member_before (filter (in_group rm.id) s.tables.members))),
        listed rm.id u s.tables.members,
      )
    ]

other_participants-tables :
    (rm : Room) (uid : ℕ) (s : Session) → (other_participants rm uid s).1.tables ≡ s.tables
unfolding other_participants Store.list_members Store.get_friend_by_room_id
other_participants-tables rm uid s = ground arith

push_invite-private :
    {C : MemberCache} (encode : Envelope → Option String) (uid : ℕ) (req : InviteRequest)
    (w : World C) (rm : Room) (c : ℕ)
    → ((u : ℕ)
        → is_listed w.session.tables rm u ≡ true
        → contains (conns_of w.hub.conns u) c ≡ false)
    → (deliveries c (push_invite encode uid req rm w).hub.sent ≡ deliveries c w.hub.sent)
      × ((push_invite encode uid req rm w).session.tables ≡ w.session.tables)
unfolding push_invite
push_invite-private encode uid req w rm c apart = (
  omega (
    arith,
    (deliveries-send c (other_participants rm uid w.session).0
        (bytes_of (
          marshal encode "call_invite" (
            Envelope.notification
              (record { room_id = req.room_id; from_uid = uid; mode = req.mode }))))
        w.hub).0,
    held_by-none c w.hub.conns (other_participants rm uid w.session).0
        (λ u l. apart u (other_participants-is_listed rm uid u w.session l)),
  ),
  other_participants-tables rm uid w.session,
)

module _ {C : MemberCache} (encode : Envelope → Option String) (uid : ℕ) (req : InviteRequest)
    (w : World C) where
  abbrev pub invited : Response × World C
  invited = serve (invite encode uid (some req)) w

  -- An invitation to a room that does not exist, or that the caller does not participate in, is not
  -- answered with success, pushes nothing and changes no table.
  pub invite-refused :
      may_send w.session.tables uid req.room_id ≡ false
      → (invited.0.status ≢ 200)
        × (invited.1.session.tables ≡ w.session.tables)
        × (invited.1.hub ≡ w.hub)
  unfolding invite room_of_caller Store.get_room
  invite-refused h = elim (Option-cases (find? (has_id req.room_id) w.session.tables.rooms)) [
    | inl e ↦ (ground (arith, e), ground (arith, e), ground (arith, e))
    | inr (rm, e) ↦
        let s1 = (Store.get_room req.room_id w.session).1 in
        let lem = is_participant-participates rm uid s1 in
        let same = is_participant-tables rm uid s1 in
        (ground (arith, e, lem), ground (arith, e, lem, same), ground (arith, e, lem))
  ]

  -- Whatever statements fail, a connection that no user of the room holds gets nothing of an invitation
  -- to it, and the invitation changes no table.
  pub invite-private :
      (rm : Room) (c : ℕ)
      → find? (has_id req.room_id) w.session.tables.rooms ≡ some rm
      → ((u : ℕ)
          → is_listed w.session.tables rm u ≡ true
          → contains (conns_of w.hub.conns u) c ≡ false)
      → (deliveries c invited.1.hub.sent ≡ deliveries c w.hub.sent)
        × (invited.1.session.tables ≡ w.session.tables)
  unfolding invite room_of_caller Store.get_room
  invite-private rm c found apart =
      let s1 = (Store.get_room req.room_id w.session).1 in
      let w2 = (in_session (is_participant rm uid) (sql (Store.get_room req.room_id) w).1).1 in
      elim (Option-cases (with_mode (some req))) [
        | inl e ↦ (ground (arith, e), ground (arith, e))
        | inr (req', e) ↦
            let private =
              push_invite-private encode uid req' w2 rm c
                (λ u l. apart u (rw (is_participant-tables rm uid s1) at l)) in
            (
              ground (arith, e, found, private.0),
              ground (arith, e, found, private.1, is_participant-tables rm uid s1),
            )
      ]
