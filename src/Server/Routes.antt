-- ===== src/Server/Routes.antt =====
-- The tables of the two muxes: `buildMux` of cmd/server/main.go, and the functions `RegisterRoutes`,
-- `RegisterPublicRoutes`, `Register` and `RegisterProtected` of the handlers' packages.
pub mod Endpoints
pub mod Reach
use chatroom_server.Base.{String, none, some, List, [], ◌∷◌, ◌++◌}
use chatroom_server.Server.Mux.{Segment, lit, wild, rest, Pattern}

-- The handlers behind the middleware.
pub data Route : Type 0 where
  list_rooms create_friend_room create_group mark_read : Route
  add_member remove_member exit_group set_admin list_members : Route
  send recall mark page : Route
  upload : Route
  token invite : Route
  lookup update_profile : Route

-- The handlers of the outer mux; `guarded` is the inner mux behind the middleware.
pub data Entrance : Type 0 where
  healthz register login serve_ws download guarded : Entrance

module _ {A : Type 0} where
  -- `HandleFunc("<METHOD> <path>", handler)`
  abbrev pub on : String → List Segment → A → Pattern A
  on method path target = record { method = some method; path = path; target = target }

  -- `Handle("<path>", handler)`
  abbrev pub on_any : List Segment → A → Pattern A
  on_any path target = record { method = none; path = path; target = target }

-- "/api/rooms" and "/api/rooms/groups/{roomID}", and what follows them.
abbrev pub under_rooms : List Segment → List Segment
under_rooms path = lit "api" ∷ lit "rooms" ∷ path

abbrev pub under_group : List Segment → List Segment
under_group path = under_rooms (lit "groups" ∷ wild "roomID" ∷ path)

abbrev pub under_messages : List Segment → List Segment
under_messages path = lit "api" ∷ lit "messages" ∷ path

-- `RegisterRoutes` of internal/room/handler.go
abbrev pub room_routes : List (Pattern Route)
room_routes =
    on "GET" (under_rooms []) list_rooms
    ∷ on "POST" (under_rooms (lit "friends" ∷ [])) create_friend_room
    ∷ on "POST" (under_rooms (lit "groups" ∷ [])) create_group
    ∷ on "PUT" (under_rooms (wild "roomID" ∷ lit "read" ∷ [])) mark_read
    ∷ on "POST" (under_group (lit "members" ∷ [])) add_member
    ∷ on "DELETE" (under_group (lit "members" ∷ wild "uid" ∷ [])) remove_member
    ∷ on "DELETE" (under_group (lit "members" ∷ lit "me" ∷ [])) exit_group
    ∷ on "PUT" (under_group (lit "admins" ∷ wild "uid" ∷ [])) set_admin
    ∷ on "GET" (under_group (lit "members" ∷ [])) list_members
    ∷ []

-- `RegisterRoutes` of internal/message/handler.go
abbrev pub message_routes : List (Pattern Route)
message_routes =
    on "POST" (under_messages []) send
    ∷ on "PUT" (under_messages (wild "id" ∷ lit "recall" ∷ [])) recall
    ∷ on "PUT" (under_messages (wild "id" ∷ lit "mark" ∷ [])) mark
    ∷ on "GET" (under_rooms (wild "roomID" ∷ lit "messages" ∷ [])) page
    ∷ []

-- `RegisterRoutes` of internal/media/handler.go
abbrev pub media_routes : List (Pattern Route)
media_routes = on "POST" (lit "api" ∷ lit "media" ∷ lit "upload" ∷ []) upload ∷ []

-- `RegisterRoutes` of internal/call/handler.go
abbrev pub call_routes : List (Pattern Route)
call_routes =
    on "POST" (lit "api" ∷ lit "calls" ∷ lit "token" ∷ []) token
    ∷ on "POST" (lit "api" ∷ lit "calls" ∷ lit "invite" ∷ []) invite
    ∷ []

-- `RegisterProtected` of internal/auth/handler.go
abbrev pub user_routes : List (Pattern Route)
user_routes =
    on "POST" (lit "api" ∷ lit "users" ∷ lit "lookup" ∷ []) lookup
    ∷ on "PUT" (lit "api" ∷ lit "users" ∷ lit "me" ∷ []) update_profile
    ∷ []

-- `protected` in `buildMux`
abbrev pub protected_mux : List (Pattern Route)
protected_mux = room_routes ++ (message_routes ++ (media_routes ++ (call_routes ++ user_routes)))

-- `Register` of internal/auth/handler.go
abbrev pub auth_routes : List (Pattern Entrance)
auth_routes =
    on "POST" (lit "api" ∷ lit "auth" ∷ lit "register" ∷ []) register
    ∷ on "POST" (lit "api" ∷ lit "auth" ∷ lit "login" ∷ []) login
    ∷ []

-- `RegisterRoutes` of internal/ws/handler.go
abbrev pub ws_routes : List (Pattern Entrance)
ws_routes = on "GET" (lit "ws" ∷ []) serve_ws ∷ []

-- `RegisterPublicRoutes` of internal/media/handler.go
abbrev pub download_routes : List (Pattern Entrance)
download_routes = on "GET" (lit "api" ∷ lit "media" ∷ wild "id" ∷ []) download ∷ []

abbrev pub public_routes : List (Pattern Entrance)
public_routes = auth_routes ++ (ws_routes ++ download_routes)

-- The paths that `buildMux` puts the middleware on.
abbrev pub guarded_routes : List (Pattern Entrance)
guarded_routes =
    on_any (under_rooms []) guarded
    ∷ on_any (under_rooms (rest ∷ [])) guarded
    ∷ on_any (under_messages []) guarded
    ∷ on_any (under_messages (rest ∷ [])) guarded
    ∷ on "POST" (lit "api" ∷ lit "media" ∷ lit "upload" ∷ []) guarded
    ∷ on "POST" (lit "api" ∷ lit "calls" ∷ lit "token" ∷ []) guarded
    ∷ on "POST" (lit "api" ∷ lit "calls" ∷ lit "invite" ∷ []) guarded
    ∷ on "POST" (lit "api" ∷ lit "users" ∷ lit "lookup" ∷ []) guarded
    ∷ on "PUT" (lit "api" ∷ lit "users" ∷ lit "me" ∷ []) guarded
    ∷ []

-- `mux` in `buildMux`
abbrev pub outer_mux : List (Pattern Entrance)
outer_mux = on "GET" (lit "healthz" ∷ []) healthz ∷ (public_routes ++ guarded_routes)
