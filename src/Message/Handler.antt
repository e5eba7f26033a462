-- ===== src/Message/Handler.antt =====
-- internal/message/handler.go. `encode` is encoding/json on an envelope. A request is given by the
-- caller's uid, by what the `strconv` functions made of each path value and query parameter, and by the
-- decoded body; `none` stands for a parse error.
pub mod Parts
pub mod Send
pub mod Recalling
pub mod Page
use chatroom_server.Message.Request.{
  SendRequest, with_room, is_none, refusal, new_message, positive_limit, or_zero,
}
use chatroom_server.Base.{
  ℕ, ◌*◌, String, Bool, true, false, not, ◌&&◌, ◌||◌, Option, none, some, List, [], ◌∷◌, map, ltb,
  leb, ◌==◌, if◌then◌else◌, filter, contains,
}
use chatroom_server.Action.{
  Result, ok, err, ◌>>=◌, ◌>>◌, pure, raise_if, or_raise, or_else_raise, attempt, ignore,
}
use chatroom_server.MemberCache.{MemberCache, Cached, hit, miss, cache_error}
use chatroom_server.Db.{DbError}
use chatroom_server.World.{World, Handler, sql}
use chatroom_server.Http.{
  Response, write_json, write_error, status_ok, bad_request, forbidden, status_not_found,
  internal_error, done, messages, message,
}
use chatroom_server.Room.Model.{Room, Friend, Member, Role, is_hot, is_group, role_member}
use chatroom_server.Room.Recipients.{recipients}
use chatroom_server.Room.Role.{is_one_of}
use chatroom_server.Room.Store as Rooms
use chatroom_server.Message.Model.{
  Message, MessageType, type_text, type_emoji, type_image, type_video, status_normal,
  status_deleted,
}
use chatroom_server.Message.Recall.{can_recall, second}
use chatroom_server.Message.Store as Messages
use chatroom_server.Ws.Envelope.{Envelope, marshal}
use chatroom_server.Ws.Envelope
use chatroom_server.Ws.Hub.{send_to_users, broadcast_all}
use text.Mathlib.Text.{◌==◌ as str_eq}

abbrev pub group_member_cache_ttl : ℕ
group_member_cache_ttl = 300 * second

-- The recipients but for the sender.
abbrev pub others : ℕ → List ℕ → List ℕ
others sender uids = filter (λ uid. not (uid == sender)) uids

abbrev pub member_uids : List Member → List ℕ
member_uids ms = map (λ m. m.uid) ms

-- `actorRole`: the plain member's, if the caller's row is not found.
abbrev pub role_or_member : {E : Type 0} → Result E Member → Role
role_or_member (ok m) = m.role
role_or_member (err e) = role_member

-- `slices.Contains`, or false on an error.
abbrev pub has_uid : {E : Type 0} → ℕ → Result E (List ℕ) → Bool
has_uid uid (ok uids) = contains uids uid
has_uid uid (err e) = false

module _ {C : MemberCache} where
  -- `h.cache.Get`, where the cache is not nil.
  abbrev pub cached : ℕ → World C → Cached × World C
  cached g w =
      if C.enabled then (let (c, s) = C.get w.cache g in (c, record w { cache = s })) else (miss, w)

  -- `_ = h.cache.Set`, where the cache is not nil.
  abbrev pub store_uids : ℕ → List ℕ → World C → World C
  store_uids g uids w = record w {
    cache = if C.enabled then (C.set w.cache g uids group_member_cache_ttl).1 else w.cache;
  }

  -- `ListMembers`, and the write through to the cache.
  abbrev pub load_uids : ℕ → World C → Result DbError (List ℕ) × World C
  load_uids g w =
      let (r, w') = sql (Rooms.list_members g) w in
      elim r [
        | ok ms ↦ (ok (member_uids ms), store_uids g (member_uids ms) w')
        | err e ↦ (err e, w')
      ]

  -- `groupMemberUIDs`
  unfoldable pub group_member_uids : ℕ → World C → Result DbError (List ℕ) × World C
  group_member_uids g w =
      let (c, w') = cached g w in
      elim c [ hit uids ↦ (ok uids, w') | miss ↦ load_uids g w' | cache_error ↦ load_uids g w' ]

  -- `canPost`
  unfoldable pub can_post : Room → ℕ → World C → Bool × World C
  can_post rm uid w =
      if is_hot rm
      then (true, w)
      else if is_group rm
      then (let (r, w') = group_member_uids rm.id w in (has_uid uid r, w'))
      else (let (r, w') = sql (Rooms.get_friend_by_room_id rm.id) w in (is_one_of uid r, w'))

  -- `resolveRecipients`
  unfoldable pub resolve_recipients : Room → World C → Result DbError (List ℕ) × World C
  resolve_recipients rm w =
      if is_group rm
      then (let (r, w') = group_member_uids rm.id w in
          elim r [ ok uids ↦ (ok (recipients rm uids none), w') | err e ↦ (err e, w') ])
      else (let (r, w') = sql (Rooms.get_friend_by_room_id rm.id) w in
          elim r [ ok f ↦ (ok (recipients rm [] (some f)), w') | err e ↦ (err e, w') ])

  -- `SendToUsers` to the recipients, or nothing on an error.
  abbrev pub push_to : String → Result DbError (List ℕ) × World C → World C
  push_to payload (ok uids, w) = record w { hub = send_to_users uids payload w.hub }
  push_to payload (err e, w) = w

  abbrev pub push : Room → Option String → World C → World C
  push rm none w = w
  push rm (some payload) w =
      if is_hot rm
      then record w { hub = broadcast_all payload w.hub }
      else push_to payload (resolve_recipients rm w)

  module _ (encode : Envelope → Option String) where
    -- `broadcast`
    unfoldable pub broadcast : Room → Message → World C → World C
    broadcast rm msg w = push rm (marshal encode "chat_message" (Envelope.message msg)) w

  -- The unread counts, once the recipients are known.
  abbrev pub count_unread : ℕ → ℕ → Result DbError (List ℕ) × World C → World C
  count_unread room_id sender (err e, w) = w
  count_unread room_id sender (ok uids, w) =
      (sql (Rooms.reset_unread sender room_id)
        (sql (Rooms.bump_unread room_id (others sender uids)) w).1).1

  -- `trackActivity`
  unfoldable pub track_activity : Room → ℕ → ℕ → World C → World C
  track_activity rm sender msg_id w =
      let w' = (sql (Rooms.touch_room rm.id msg_id) w).1 in
      if is_hot rm then w' else count_unread rm.id sender (resolve_recipients rm w')

  -- A step that gives a value and cannot fail, and one that only changes the world.
  abbrev pub reading : {A : Type 0} → (World C → A × World C) → Handler C A
  reading f w = let (a, w') = f w in (ok a, w')

  abbrev pub doing : (World C → World C) → Handler C (Unit {0})
  doing f w = (ok tt, f w)

  abbrev pub refuse : Option Response → Handler C (Unit {0})
  refuse none w = (ok tt, w)
  refuse (some r) w = (err r, w)

  module _ (encode : Envelope → Option String) where
    -- `send`, once the caller may post: the insertion, the push, the counts and the response.
    unfoldable pub post_message : ℕ → SendRequest → Room → Handler C Response
    post_message uid req rm = do
      id ←
          or_else_raise (sql (Messages.insert (new_message uid req)))
            (write_error internal_error "failed to send message")
      now ← reading (λ w. (w.now, w))
      let msg = record (new_message uid req) { id = id; create_time = now }
      doing (broadcast encode rm msg)
      doing (track_activity rm uid id)
      pure (write_json status_ok (message msg))

    -- `send`
    unfoldable pub send : ℕ → Option SendRequest → Handler C Response
    send uid body = do
      req ← or_raise (with_room body) (write_error bad_request "room_id is required")
      refuse (refusal req)
      rm ←
          or_else_raise (sql (Rooms.get_room req.room_id))
            (write_error status_not_found "room not found")
      allowed ← reading (can_post rm uid)
      raise_if (not allowed) (write_error forbidden "not a participant of this room")
      post_message uid req rm

    -- The push of a recalled message, if its room is found.
    unfoldable pub push_recalled : Message → Result DbError Room × World C → World C
    push_recalled msg (ok rm, w) = broadcast encode rm (record msg { status = status_deleted }) w
    push_recalled msg (err e, w) = w

    -- `recall`
    unfoldable pub recall : ℕ → Option ℕ → Handler C Response
    recall uid path_id = do
      msg_id ← or_raise path_id (write_error bad_request "invalid message id")
      msg ←
          or_else_raise (sql (Messages.get_by_id msg_id))
            (write_error status_not_found "message not found")
      member ← attempt (sql (Rooms.get_member msg.room_id uid))
      now ← reading (λ w. (w.now, w))
      raise_if (not (can_recall msg.from_uid uid (role_or_member member) msg.create_time now))
          (write_error forbidden "not allowed to recall this message")
      or_else_raise (sql (Messages.set_status msg_id status_deleted))
          (write_error internal_error "failed to recall message")
      doing (λ w. push_recalled msg (sql (Rooms.get_room msg.room_id) w))
      pure (write_json status_ok done)

  -- `mark`
  unfoldable pub mark : ℕ → Option ℕ → Option ℕ → Handler C Response
  mark uid path_id body = do
    msg_id ← or_raise path_id (write_error bad_request "invalid message id")
    mark_type ← or_raise body (write_error bad_request "invalid request body")
    or_else_raise (sql (Messages.add_mark msg_id uid mark_type))
        (write_error internal_error "failed to mark message")
    pure (write_json status_ok done)

  -- `page`
  unfoldable pub page : Option ℕ → Option ℕ → Option ℕ → Handler C Response
  page path_room query_before query_limit = do
    room_id ← or_raise path_room (write_error bad_request "invalid roomID")
    msgs ←
        or_else_raise
          (sql (
            Messages.list_by_room_cursor room_id (or_zero query_before)
              (positive_limit query_limit)))
          (write_error internal_error "failed to list messages")
    pure (write_json status_ok (messages msgs))
