-- ===== src/Server/Routes/Endpoints.antt =====
-- The requests of the API with their paths, as a client writes them, beside the tables of the muxes.
use chatroom_server.Base.{ℕ, String, List, [], ◌∷◌}
use chatroom_server.Server.Routes.{Route}
use chatroom_server.Text.Decimal.{format_int}

-- A request behind the middleware, with the ids of its path.
pub data Endpoint : Type 0 where
  list_rooms create_friend_room create_group : Endpoint
  mark_read add_member exit_group list_members : ℕ → Endpoint
  remove_member set_admin : ℕ → ℕ → Endpoint
  send : Endpoint
  recall mark page : ℕ → Endpoint
  upload token invite lookup update_profile : Endpoint

abbrev pub method_of : Endpoint → String
method_of list_rooms = "GET"
method_of create_friend_room = "POST"
method_of create_group = "POST"
method_of (mark_read room) = "PUT"
method_of (add_member room) = "POST"
method_of (exit_group room) = "DELETE"
method_of (list_members room) = "GET"
method_of (remove_member room uid) = "DELETE"
method_of (set_admin room uid) = "PUT"
method_of send = "POST"
method_of (recall id) = "PUT"
method_of (mark id) = "PUT"
method_of (page room) = "GET"
method_of upload = "POST"
method_of token = "POST"
method_of invite = "POST"
method_of lookup = "POST"
method_of update_profile = "PUT"

abbrev pub group_path : ℕ → List String → List String
group_path room path = "api" ∷ "rooms" ∷ "groups" ∷ format_int room ∷ path

abbrev pub path_of : Endpoint → List String
path_of list_rooms = "api" ∷ "rooms" ∷ []
path_of create_friend_room = "api" ∷ "rooms" ∷ "friends" ∷ []
path_of create_group = "api" ∷ "rooms" ∷ "groups" ∷ []
path_of (mark_read room) = "api" ∷ "rooms" ∷ format_int room ∷ "read" ∷ []
path_of (add_member room) = group_path room ("members" ∷ [])
path_of (exit_group room) = group_path room ("members" ∷ "me" ∷ [])
path_of (list_members room) = group_path room ("members" ∷ [])
path_of (remove_member room uid) = group_path room ("members" ∷ format_int uid ∷ [])
path_of (set_admin room uid) = group_path room ("admins" ∷ format_int uid ∷ [])
path_of send = "api" ∷ "messages" ∷ []
path_of (recall id) = "api" ∷ "messages" ∷ format_int id ∷ "recall" ∷ []
path_of (mark id) = "api" ∷ "messages" ∷ format_int id ∷ "mark" ∷ []
path_of (page room) = "api" ∷ "rooms" ∷ format_int room ∷ "messages" ∷ []
path_of upload = "api" ∷ "media" ∷ "upload" ∷ []
path_of token = "api" ∷ "calls" ∷ "token" ∷ []
path_of invite = "api" ∷ "calls" ∷ "invite" ∷ []
path_of lookup = "api" ∷ "users" ∷ "lookup" ∷ []
path_of update_profile = "api" ∷ "users" ∷ "me" ∷ []

-- The ids, in the path's order.
abbrev pub ids_of : Endpoint → List ℕ
ids_of (mark_read room) = room ∷ []
ids_of (add_member room) = room ∷ []
ids_of (exit_group room) = room ∷ []
ids_of (list_members room) = room ∷ []
ids_of (remove_member room uid) = room ∷ uid ∷ []
ids_of (set_admin room uid) = room ∷ uid ∷ []
ids_of (recall id) = id ∷ []
ids_of (mark id) = id ∷ []
ids_of (page room) = room ∷ []
ids_of e = []

abbrev pub route_of : Endpoint → Route
route_of list_rooms = Route.list_rooms
route_of create_friend_room = Route.create_friend_room
route_of create_group = Route.create_group
route_of (mark_read room) = Route.mark_read
route_of (add_member room) = Route.add_member
route_of (exit_group room) = Route.exit_group
route_of (list_members room) = Route.list_members
route_of (remove_member room uid) = Route.remove_member
route_of (set_admin room uid) = Route.set_admin
route_of send = Route.send
route_of (recall id) = Route.recall
route_of (mark id) = Route.mark
route_of (page room) = Route.page
route_of upload = Route.upload
route_of token = Route.token
route_of invite = Route.invite
route_of lookup = Route.lookup
route_of update_profile = Route.update_profile
