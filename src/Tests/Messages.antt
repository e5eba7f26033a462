-- ===== src/Tests/Messages.antt =====
-- Requests of internal/message and pushes over internal/ws at the small database.
use chatroom_server.Base.{◌≡◌, refl, true, none, some, [], ◌∷◌, find?, arith}
use chatroom_server.Base.Rows.{update_where}
use chatroom_server.Base.Sort.{sort_by}
use chatroom_server.Room.Role.{is_participant}
use chatroom_server.Room.Recipients.{recipients}
use chatroom_server.Room.Store as Rooms
use chatroom_server.Message.Model.{Message, status_deleted}
use chatroom_server.Message.Recall.{can_recall}
use chatroom_server.Message.Store as Messages
use chatroom_server.Message.Store.{has_msg_id, with_status, list_by_room_cursor, add_mark, is_mark}
use chatroom_server.Message.Handler.{
  can_post, group_member_uids, resolve_recipients, broadcast, track_activity, post_message, send,
  recall, push_recalled,
}
use chatroom_server.Message.Request.{SendRequest, with_room, refusal}
use chatroom_server.Message.Handler.Send.{sent, send-refused}
use chatroom_server.Message.Handler.Recalling.{recalled, table_role, recall-authorised}
use chatroom_server.Ws.Hub.{register, unregister, send_to_users, broadcast_all}
use chatroom_server.Ws.Hub.Connections.{IsWellFormed, register-IsWellFormed}
use chatroom_server.Coherence.{IsCoherent}
use chatroom_server.Coherence.Post.{can_post-eq-is_participant}
use chatroom_server.Tests.Data.{
  memory_cache, memory_cache-IsCache, session, world, tables, encode, room_row,
}

program : Unit {0}
unfolding send with_room refusal can_post group_member_uids resolve_recipients recipients broadcast
    track_activity post_message recall push_recalled can_recall is_participant register unregister
    send_to_users broadcast_all Rooms.get_room Rooms.get_member Rooms.get_friend_by_room_id
    Rooms.list_members Rooms.touch_room Rooms.bump_unread Rooms.bump_all Rooms.reset_unread
    Messages.insert Messages.get_by_id Messages.set_status list_by_room_cursor sort_by
program = tt

world-IsCoherent : IsCoherent memory_cache world
world-IsCoherent = record { known = λ g us h. cc; exact = λ g v us h. cc }

abbrev hello : SendRequest
hello = record { room_id = 1; content = "hello"; type = 0; reply_msg_id = 0; extra = none }

abbrev hello_text : SendRequest
hello_text = record hello { type = 1 }

-- User 2 writes to the group; users 1 and 3 are connected, user 4 is not in the group.
pushed :
    (sent encode 2 (some hello) world).1.hub.sent
    ≡ (30, "chat_message") ∷ (11, "chat_message") ∷ (10, "chat_message") ∷ []
unfolding program
pushed = refl

stranger : (sent encode 4 (some hello) world).0.status ≡ 403
unfolding program
stranger = refl

send-refused_example :
    ((sent encode 4 (some hello) world).1.session.tables ≡ tables)
    × ((sent encode 4 (some hello) world).1.hub ≡ world.hub)
unfolding program
send-refused_example = send-refused encode 4 (some hello) world (omega arith)

can_post-eq-is_participant_example :
    (can_post (room_row 2 1 0) 3 world).0 ≡ (is_participant (room_row 2 1 0) 3 session).0
can_post-eq-is_participant_example =
    can_post-eq-is_participant memory_cache-IsCache world world-IsCoherent (room_row 2 1 0) 3
      (λ n. refl)

recall-authorised_example :
    (m : Message) × (find? (has_msg_id 2) tables.messages ≡ some m)
    × (can_recall m.from_uid 2 (table_role tables m.room_id 2) m.create_time 50 ≡ true)
    × ((recalled encode 2 2 world).1.session.tables ≡ record tables {
      messages = update_where (has_msg_id 2) (with_status status_deleted) tables.messages;
    })
unfolding program
recall-authorised_example = recall-authorised encode 2 2 world refl

hub-IsWellFormed : IsWellFormed world.hub.conns
hub-IsWellFormed =
    (refl, refl, (refl, (refl, tt)), (refl, refl, (refl, tt), (refl, refl, (refl, tt), tt)))

register-IsWellFormed_example :
    IsWellFormed (register 3 30 world.hub).conns × IsWellFormed (unregister 3 30 world.hub).conns
register-IsWellFormed_example = register-IsWellFormed 3 30 world.hub hub-IsWellFormed
