-- ===== src/Server/Site/Api.antt =====
-- Every request of the API reaches its handler, behind the middleware, with the ids of its path.
use chatroom_server.Base.{ℕ, ◌≡◌, ◌≤◌, refl, ap, some, [], arith}
use chatroom_server.MemberCache.{MemberCache}
use chatroom_server.Storage.{Store}
use chatroom_server.Room.Requests as Rooms
use chatroom_server.Auth.Token.{middleware_at}
use chatroom_server.Text.Decimal.{format_int}
use chatroom_server.Text.Json.{max_int64}
use chatroom_server.Text.Atoi.RoundTrip.{atoi-format_int}
use chatroom_server.Server.Requests.{Parts, Protected, MessageRequest, CallRequest, UserRequest}
use chatroom_server.Server.Mux.{found, find_handler}
use chatroom_server.Server.Routes.{guarded, protected_mux, outer_mux}
use chatroom_server.Server.Routes.Endpoints
use chatroom_server.Server.Routes.Endpoints.{Endpoint, method_of, path_of, route_of}
use chatroom_server.Server.Routes.Reach.{InRange, values_of, outer_mux-guarded, protected_mux-route}
use chatroom_server.Server.Site.{
  HttpRequest, Moment, Decoders, Task, on_world, parse_id, read_task, Site, MediaParts, serve_site,
  handle_task, at_moment, serve_http,
}

-- What a handler is to do for a request of the API.
abbrev pub task_of : Decoders → Endpoint → HttpRequest → Task
task_of D Endpoints.list_rooms r = on_world (Protected.rooms Rooms.list_rooms)
task_of D Endpoints.create_friend_room r =
    on_world (Protected.rooms (Rooms.create_friend_room (D.friend_uid r.body)))
task_of D Endpoints.create_group r =
    on_world (Protected.rooms (Rooms.create_group (D.group r.body)))
task_of D (Endpoints.mark_read room) r = on_world (Protected.rooms (Rooms.mark_read (some room)))
task_of D (Endpoints.add_member room) r =
    on_world (Protected.rooms (Rooms.add_member (some room) (D.member_uid r.body)))
task_of D (Endpoints.exit_group room) r = on_world (Protected.rooms (Rooms.exit_group (some room)))
task_of D (Endpoints.list_members room) r =
    on_world (Protected.rooms (Rooms.list_members (some room)))
task_of D (Endpoints.remove_member room uid) r =
    on_world (Protected.rooms (Rooms.remove_member (some room) (some uid)))
task_of D (Endpoints.set_admin room uid) r =
    on_world (Protected.rooms (Rooms.set_admin (some room) (some uid) (D.admin_flag r.body)))
task_of D Endpoints.send r = on_world (Protected.messages (MessageRequest.send (D.message r.body)))
task_of D (Endpoints.recall id) r = on_world (Protected.messages (MessageRequest.recall (some id)))
task_of D (Endpoints.mark id) r =
    on_world (Protected.messages (MessageRequest.mark (some id) (D.mark_type r.body)))
task_of D (Endpoints.page room) r = on_world (
    Protected.messages (
      MessageRequest.page (some room) (parse_id (r.query "before_id"))
        (parse_id (r.query "limit"))))
task_of D Endpoints.upload r = Task.upload (D.form r.body)
task_of D Endpoints.token r = on_world (Protected.calls (CallRequest.token (D.call_room r.body)))
task_of D Endpoints.invite r = on_world (Protected.calls (CallRequest.invite (D.invite r.body)))
task_of D Endpoints.lookup r = on_world (Protected.users (UserRequest.lookup (D.uids r.body)))
task_of D Endpoints.update_profile r =
    on_world (Protected.users (UserRequest.update_profile (D.profile r.body)))

parse_id-format_int : (n : ℕ) → n ≤ max_int64 → parse_id (format_int n) ≡ some n
parse_id-format_int n h = ground (arith, atoi-format_int n h)

-- A handler reads the ids that the client wrote.
read_task-values_of :
    (D : Decoders) (e : Endpoint) (r : HttpRequest)
    → InRange e
    → read_task D (route_of e) (values_of e) r ≡ task_of D e r
read_task-values_of D Endpoints.list_rooms r h = refl
read_task-values_of D Endpoints.create_friend_room r h = refl
read_task-values_of D Endpoints.create_group r h = refl
read_task-values_of D (Endpoints.mark_read room) r h = rw (parse_id-format_int room h.0) refl
read_task-values_of D (Endpoints.add_member room) r h = rw (parse_id-format_int room h.0) refl
read_task-values_of D (Endpoints.exit_group room) r h = rw (parse_id-format_int room h.0) refl
read_task-values_of D (Endpoints.list_members room) r h = rw (parse_id-format_int room h.0) refl
read_task-values_of D (Endpoints.remove_member room uid) r h =
    rw (parse_id-format_int room h.0, parse_id-format_int uid h.1.0) refl
read_task-values_of D (Endpoints.set_admin room uid) r h =
    rw (parse_id-format_int room h.0, parse_id-format_int uid h.1.0) refl
read_task-values_of D Endpoints.send r h = refl
read_task-values_of D (Endpoints.recall id) r h = rw (parse_id-format_int id h.0) refl
read_task-values_of D (Endpoints.mark id) r h = rw (parse_id-format_int id h.0) refl
read_task-values_of D (Endpoints.page room) r h = rw (parse_id-format_int room h.0) refl
read_task-values_of D Endpoints.upload r h = refl
read_task-values_of D Endpoints.token r h = refl
read_task-values_of D Endpoints.invite r h = refl
read_task-values_of D Endpoints.lookup r h = refl
read_task-values_of D Endpoints.update_profile r h = refl

module _ {C : MemberCache} {S : Store} (P : Parts) (M : MediaParts) (D : Decoders) where
  -- A request with the method and the path of an entry of the API, whose ids are numbers of int64 written
  -- in decimal, gets what the middleware gives for the entry's handler, with those ids: no other route of
  -- the two muxes takes it, and `members/me` is not the removal of a member.
  pub serve_http-endpoint :
      (e : Endpoint) (r : HttpRequest) (m : Moment) (s : Site C S)
      → InRange e
      → r.method ≡ method_of e
      → r.path ≡ path_of e
      → serve_http P M D r m s
        ≡ serve_site
            (middleware_at P.jwt P.secret m.now (handle_task P M m (task_of D e r)) r.authorization)
            (at_moment m s)
  unfolding serve_http
  serve_http-endpoint e r m s h same_method same_path =
      let outer : find_handler r.method r.path outer_mux ≡ found guarded [] =
        rw (same_method, same_path) (outer_mux-guarded e) in
      let inner : find_handler r.method r.path protected_mux ≡ found (route_of e) (values_of e) =
        rw (same_method, same_path) (protected_mux-route e h) in
      rw (outer, inner)
        (ap
          (λ t.
            serve_site (middleware_at P.jwt P.secret m.now (handle_task P M m t) r.authorization)
              (at_moment m s))
          (read_task-values_of D e r h))
