-- ===== src/Server/Site.antt =====
-- The server as its clients see it: an HTTP request goes through the mux of `buildMux` in
-- cmd/server/main.go, the middleware and the inner mux to its handler, with its path values, its query and
-- its body read as the handlers read them. encoding/json and the reading of a form are taken as functions.
pub mod Registration
pub mod Open
pub mod Login
pub mod Events
pub mod Api
use chatroom_server.Base.{ℕ, String, Bool, Option, none, some, List}
use chatroom_server.Base.Int.{ℤ, pos, negsuc}
use chatroom_server.Text.Atoi.{atoi}
use chatroom_server.Action.{Result, ok, err, Action, pure}
use chatroom_server.MemberCache.{MemberCache}
use chatroom_server.World.{World, Handler, response_of, serve}
use chatroom_server.Http.{
  Response, write_json, http_error, status_ok, unauthorized, status_not_found, method_not_allowed,
  switching_protocols, health, text,
}
use chatroom_server.Storage.{Store}
use chatroom_server.Media.Thumbnail.{Float}
use chatroom_server.Media.Handler as Media
use chatroom_server.Media.Handler.{File, Images}
use chatroom_server.Room.Requests as Rooms
use chatroom_server.Room.Handler.{CreateGroupRequest}
use chatroom_server.Message.Request.{SendRequest}
use chatroom_server.Call.Handler.{InviteRequest}
use chatroom_server.Auth.Handler.{RegisterRequest, LoginRequest, UpdateProfileRequest}
use chatroom_server.Auth.Token.{middleware_at}
use chatroom_server.Ws.Handler as Ws
use chatroom_server.Ws.Handler.{Handshake, handshake}
use chatroom_server.Server.Requests.{
  Parts, Protected, Request, MessageRequest, CallRequest, UserRequest, handle_protected, respond,
}
use chatroom_server.Server.Run.{joined}
use chatroom_server.Server.Mux.{Found, found, not_allowed, not_found, path_value, find_handler}
use chatroom_server.Server.Routes.{Route, Entrance, protected_mux, outer_mux}

-- A request. A header or a query parameter that is missing is empty.
pub record HttpRequest : Type 0 where
  pub method : String
  pub path : List String
  pub authorization : String
  pub query : String → String
  pub body : String

-- What the system gives while a request is served: the time, the bytes of rand.Read, and the connection
-- that the upgrade of a web socket makes, or the upgrader's own answer.
pub record Moment : Type 0 where
  pub now : ℕ
  pub drawn : List ℕ
  pub drawn_thumb : List ℕ
  pub upgraded : Option ℕ
  pub rejection : Response

-- The bodies as encoding/json decodes them into each handler's type, and the form of an upload.
pub record Decoders : Type 0 where
  pub register : String → Option RegisterRequest
  pub login : String → Option LoginRequest
  pub friend_uid : String → Option ℕ
  pub group : String → Option CreateGroupRequest
  pub member_uid : String → Option ℕ
  pub admin_flag : String → Option Bool
  pub message : String → Option SendRequest
  pub mark_type : String → Option ℕ
  pub call_room : String → Option ℕ
  pub invite : String → Option InviteRequest
  pub uids : String → Option (List ℕ)
  pub profile : String → Option UpdateProfileRequest
  pub form : String → Option (Option File)

-- A number that `ParseInt` or `Atoi` has read. No row has a negative id and no page a negative limit; the
-- model takes a negative number as 0.
abbrev pub natural : Option ℤ → Option ℕ
natural none = none
natural (some (pos n)) = some n
natural (some (negsuc n)) = some 0

abbrev pub parse_id : String → Option ℕ
parse_id s = natural (atoi s)

-- A request behind the middleware, read for its handler.
pub data Task : Type 0 where
  on_world : Protected → Task
  upload : Option (Option File) → Task

-- What each handler reads of its request; `values` are the path's.
abbrev pub room_id_of : List (String × String) → Option ℕ
room_id_of values = parse_id (path_value "roomID" values)

abbrev pub user_id_of : List (String × String) → Option ℕ
user_id_of values = parse_id (path_value "uid" values)

abbrev pub message_id_of : List (String × String) → Option ℕ
message_id_of values = parse_id (path_value "id" values)

abbrev pub read_task : Decoders → Route → List (String × String) → HttpRequest → Task
read_task D Route.list_rooms values r = on_world (Protected.rooms Rooms.list_rooms)
read_task D Route.create_friend_room values r =
    on_world (Protected.rooms (Rooms.create_friend_room (D.friend_uid r.body)))
read_task D Route.create_group values r =
    on_world (Protected.rooms (Rooms.create_group (D.group r.body)))
read_task D Route.mark_read values r =
    on_world (Protected.rooms (Rooms.mark_read (room_id_of values)))
read_task D Route.add_member values r =
    on_world (Protected.rooms (Rooms.add_member (room_id_of values) (D.member_uid r.body)))
read_task D Route.remove_member values r =
    on_world (Protected.rooms (Rooms.remove_member (room_id_of values) (user_id_of values)))
read_task D Route.exit_group values r =
    on_world (Protected.rooms (Rooms.exit_group (room_id_of values)))
read_task D Route.set_admin values r = on_world (
    Protected.rooms (Rooms.set_admin (room_id_of values) (user_id_of values) (D.admin_flag r.body)))
read_task D Route.list_members values r =
    on_world (Protected.rooms (Rooms.list_members (room_id_of values)))
read_task D Route.send values r =
    on_world (Protected.messages (MessageRequest.send (D.message r.body)))
read_task D Route.recall values r =
    on_world (Protected.messages (MessageRequest.recall (message_id_of values)))
read_task D Route.mark values r =
    on_world (Protected.messages (MessageRequest.mark (message_id_of values) (D.mark_type r.body)))
read_task D Route.page values r = on_world (
    Protected.messages (
      MessageRequest.page (room_id_of values) (parse_id (r.query "before_id"))
        (parse_id (r.query "limit"))))
read_task D Route.upload values r = upload (D.form r.body)
read_task D Route.token values r =
    on_world (Protected.calls (CallRequest.token (D.call_room r.body)))
read_task D Route.invite values r =
    on_world (Protected.calls (CallRequest.invite (D.invite r.body)))
read_task D Route.lookup values r = on_world (Protected.users (UserRequest.lookup (D.uids r.body)))
read_task D Route.update_profile values r =
    on_world (Protected.users (UserRequest.update_profile (D.profile r.body)))

-- The world, and the store of the files.
pub record Site (C : MemberCache) (S : Store) : Type 0 where
  pub world : World C
  pub files : S.State

-- What the handlers of media are built from beside the store.
pub record MediaParts : Type 1 where
  pub images : Images
  pub float : Float
  pub mime_by_extension : String → String

abbrev pub not_found_error : Response
not_found_error = http_error "404 page not found" status_not_found

abbrev pub not_allowed_error : Response
not_allowed_error = http_error "Method Not Allowed" method_not_allowed

-- What `serveWS` answers.
abbrev pub answer_ws : Handshake → Response → Response
answer_ws Handshake.unauthorized rejection =
    http_error "{\"code\":401,\"msg\":\"invalid token\"}" unauthorized
answer_ws Handshake.rejected rejection = rejection
answer_ws (Handshake.serving uid c h) rejection = record {
  status = switching_protocols;
  body = text "";
}

-- `healthzHandler`
abbrev pub healthz_handler : Response
healthz_handler = write_json status_ok (health "ok")

module _ {C : MemberCache} {S : Store} where
  -- The handlers of one part of the site's state.
  abbrev pub in_world : Handler C Response → Action (Site C S) Response Response
  in_world h s = let (r, w) = h s.world in (r, record s { world = w })

  abbrev pub in_files : Action S.State Response Response → Action (Site C S) Response Response
  in_files h s = let (r, f) = h s.files in (r, record s { files = f })

  abbrev pub serve_site : Action (Site C S) Response Response → Site C S → Response × Site C S
  serve_site h s = let (r, s') = h s in (response_of r, s')

  -- The site when a request comes in.
  abbrev pub at_moment : Moment → Site C S → Site C S
  at_moment m s = record s { world = record s.world { now = m.now } }

  module _ (P : Parts) (M : MediaParts) where
    abbrev pub handle_task : Moment → Task → ℕ → Action (Site C S) Response Response
    handle_task m (on_world req) uid = in_world (handle_protected P req uid)
    handle_task m (upload form) uid =
        in_files (Media.upload S M.images M.float M.mime_by_extension m.drawn m.drawn_thumb form)

    -- `serveWS`, up to its loop: the answer and the hub.
    abbrev pub serve_ws : HttpRequest → Moment → Action (Site C S) Response Response
    serve_ws r m s =
        let shake = handshake P.jwt P.secret (r.query "token") m.now m.upgraded s.world.hub in
        (
          ok (answer_ws shake m.rejection),
          record s { world = record s.world { hub = joined shake s.world.hub } },
        )

    module _ (D : Decoders) where
      -- `protected.ServeHTTP`
      abbrev pub serve_protected :
          Found Route → HttpRequest → Moment → ℕ → Action (Site C S) Response Response
      serve_protected (found route values) r m uid = handle_task m (read_task D route values r) uid
      serve_protected not_allowed r m uid = pure not_allowed_error
      serve_protected not_found r m uid = pure not_found_error

      -- `mux.ServeHTTP`
      abbrev pub serve_found :
          Found Entrance → HttpRequest → Moment → Action (Site C S) Response Response
      serve_found (found Entrance.healthz values) r m = pure healthz_handler
      serve_found (found Entrance.register values) r m =
          in_world (respond P (Request.register (D.register r.body)))
      serve_found (found Entrance.login values) r m =
          in_world (respond P (Request.login (D.login r.body)))
      serve_found (found Entrance.serve_ws values) r m = serve_ws r m
      serve_found (found Entrance.download values) r m =
          in_files
            (Media.download S P.jwt P.secret (r.query "token") m.now (path_value "id" values))
      serve_found (found Entrance.guarded values) r m =
          middleware_at P.jwt P.secret m.now
            (serve_protected (find_handler r.method r.path protected_mux) r m) r.authorization
      serve_found not_allowed r m = pure not_allowed_error
      serve_found not_found r m = pure not_found_error

      -- What the server does with a request.
      unfoldable pub serve_http : HttpRequest → Moment → Site C S → Response × Site C S
      serve_http r m s =
          serve_site (serve_found (find_handler r.method r.path outer_mux) r m) (at_moment m s)
