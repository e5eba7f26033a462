-- ===== src/Tests/Sites.antt =====
-- HTTP requests to the whole server over the small database, with one user who has an account.
use chatroom_server.Base.{
  ℕ, ◌*◌, ◌≡◌, ◌⊎◌, refl, String, none, some, List, map, find?, length, false, ◌+◌, [], ◌∷◌,
  if◌then◌else◌, arith,
}
use chatroom_server.World.{World}
use chatroom_server.Http.{Response, http_error}
use chatroom_server.Message.Recall.{second}
use chatroom_server.Storage.{get}
use chatroom_server.Auth.Model.{User}
use chatroom_server.Auth.Store
use chatroom_server.Auth.Token.{generate_token, parse_token, middleware, middleware_at}
use chatroom_server.Auth.Handler.{LoginRequest, handle_register, handle_login}
use chatroom_server.Auth.Handler.Login.{LogsIn}
use chatroom_server.Room.Store as Rooms
use chatroom_server.Room.Handler
use chatroom_server.Media.Handler.{download}
use chatroom_server.Ws.Hub.{register}
use chatroom_server.Ws.Handler.{handshake, leave}
use chatroom_server.Text.Decimal.{format_int}
use chatroom_server.Text.Atoi.{atoi}
use chatroom_server.Server.Requests.{Parts}
use chatroom_server.Server.Sound.{IsSound}
use chatroom_server.Server.Mux.{find_handler}
use chatroom_server.Server.Routes.Endpoints
use chatroom_server.Server.Routes.Endpoints.{Endpoint}
use chatroom_server.Server.Site.{
  HttpRequest, Moment, Decoders, Site, MediaParts, serve_site, handle_task, at_moment, serve_http,
}
use chatroom_server.Server.Site.Api.{task_of, serve_http-endpoint}
use chatroom_server.Server.Site.Login.{serve_http-logged_in}
use chatroom_server.Db.{Session}
use chatroom_server.Message.Model.{Status, status_deleted}
use chatroom_server.Message.Store.{has_msg_id, with_status, list_by_room_cursor}
use chatroom_server.Message.Store.Paging.{history}
use chatroom_server.Message.Store.History.{read_pages}
use chatroom_server.Server.Log.Run.{IsNumberedIn}
use chatroom_server.Server.Log.Site.{run_site-Holds, run_site-read_pages}
use chatroom_server.Base.Sort.{sort_by}
use chatroom_server.Server.Site.Events.{Arrival, comes, ends, run_site, run_site-IsSound}
use chatroom_server.Tests.Data.{memory_cache, memory_cache-IsCache, world, encode, message_row}
use chatroom_server.Tests.Accounts.{bcrypt, collate, jwt, jwt-IsJwt}
use chatroom_server.Tests.Files.{media, empty_bucket, plain_images}
use chatroom_server.Tests.Fractions.{fractions}
use chatroom_server.Tests.Servers.{cache-IsUp}
use text.Mathlib.Text.{◌==◌}

program : Unit {0}
unfolding serve_http find_handler format_int atoi middleware generate_token parse_token handle_login
    handle_register Store.create_user Store.get_user_by_username handshake register leave download
    get Handler.remove_member Rooms.get_room Rooms.get_member list_by_room_cursor sort_by
program = tt

abbrev pub parts : Parts
parts = record {
  encode = encode;
  sign = λ c secret. none;
  collate = collate;
  bcrypt = bcrypt;
  jwt = jwt;
  secret = "key";
  ttl = 3600 * second;
  calls = record { api_key = ""; api_secret = ""; public_url = "" };
}

abbrev pub media_parts : MediaParts
media_parts = record { images = plain_images; float = fractions; mime_by_extension = λ name. "" }

abbrev ann_logs_in : LoginRequest
ann_logs_in = record { username = "ann"; password = "secret" }

abbrev pub decoders : Decoders
decoders = record {
  register = λ body. none;
  login = λ body. if body == "ann" then some ann_logs_in else none;
  friend_uid = λ body. none;
  group = λ body. none;
  member_uid = λ body. none;
  admin_flag = λ body. none;
  message = λ body. none;
  mark_type = λ body. none;
  call_room = λ body. none;
  invite = λ body. none;
  uids = λ body. none;
  profile = λ body. none;
  form = λ body. none;
}

abbrev ann : User
ann = record {
  id = 6;
  username = "ann";
  password_hash = "#secret";
  nickname = "ann";
  avatar = "";
  create_time = 0;
}

abbrev site_world : World memory_cache
site_world = record world {
  session = record world.session { tables = record world.session.tables { users = ann ∷ [] } };
}

abbrev pub site : Site memory_cache media
site = record { world = site_world; files = empty_bucket }

abbrev pub at_time : ℕ → Moment
at_time now = record {
  now = now;
  drawn = [];
  drawn_thumb = [];
  upgraded = none;
  rejection = http_error "Bad Request" 400;
}

abbrev pub sends : String → List String → String → String → HttpRequest
sends method path authorization body = record {
  method = method;
  path = path;
  authorization = authorization;
  query = λ name. "";
  body = body;
}

abbrev served : HttpRequest → Response × Site memory_cache media
served r = serve_http parts media_parts decoders r (at_time 60) site

abbrev logs_in : HttpRequest
logs_in = sends "POST" ("api" ∷ "auth" ∷ "login" ∷ []) "" "ann"

-- User 6 asks to remove user 3 from the group of room 1.
abbrev removes : HttpRequest
removes = sends "DELETE" ("api" ∷ "rooms" ∷ "groups" ∷ "1" ∷ "members" ∷ "3" ∷ []) "Bearer token" ""

unknown_path : (served (sends "GET" ("nowhere" ∷ []) "" "")).0.status ≡ 404
unfolding program
unknown_path = refl

wrong_method : (served (sends "POST" ("healthz" ∷ []) "" "")).0.status ≡ 405
unfolding program
wrong_method = refl

no_token : (served (sends "PATCH" ("api" ∷ "rooms" ∷ "1" ∷ []) "" "")).0.status ≡ 401
unfolding program
no_token = refl

wrong_method_inside :
    (served (sends "PATCH" ("api" ∷ "messages" ∷ []) "Bearer token" "")).0.status ≡ 405
unfolding program
wrong_method_inside = refl

serve_http-endpoint_example :
    serve_http parts media_parts decoders removes (at_time 60) site
    ≡ serve_site
        (middleware_at jwt "key" 60
          (handle_task parts media_parts
            (at_time 60)
            (task_of decoders (Endpoints.remove_member 1 3) removes))
          "Bearer token")
        (at_moment (at_time 60) site)
unfolding program
serve_http-endpoint_example =
    serve_http-endpoint parts media_parts decoders (Endpoints.remove_member 1 3) removes
      (at_time 60) site (omega arith, (omega arith, tt)) refl refl

serve_http-logged_in_example :
    (req : LoginRequest) × ((u : User) × ((some ann_logs_in ≡ some req)
        × (LogsIn collate bcrypt site_world req u
            × (serve_http parts media_parts decoders removes (at_time 70) site
                ≡ serve_site
                    (handle_task parts media_parts
                      (at_time 70)
                      (task_of decoders (Endpoints.remove_member 1 3) removes)
                      u.id)
                    (at_moment (at_time 70) site)))))
unfolding program
serve_http-logged_in_example =
    serve_http-logged_in parts media_parts decoders logs_in removes (at_time 60) (at_time 70) site
      site (Endpoints.remove_member 1 3) "token" jwt-IsJwt (refl, refl) refl
      (omega arith, (omega arith, tt)) refl refl refl (omega arith)

abbrev arrivals : List Arrival
arrivals = comes removes (at_time 60) ∷ (ends 6 1 ∷ [])

site-IsSound : IsSound memory_cache site_world
site-IsSound = record {
  coherent = record { known = λ g us h. cc; exact = λ g v us h. cc };
  numbered = λ k h. ground arith;
}

run_site-IsSound_example :
    IsSound memory_cache (run_site parts media_parts decoders arrivals site).world
run_site-IsSound_example =
    run_site-IsSound parts media_parts decoders memory_cache-IsCache cache-IsUp arrivals site
      site-IsSound

site-IsNumbered : IsNumberedIn parts site_world
site-IsNumbered = record {
  distinct = (refl, (refl, (refl, tt)));
  positive = (omega arith, (omega arith, (omega arith, tt)));
  old = (omega arith, (omega arith, (omega arith, tt)));
  started = omega arith;
}

run_site-Holds_example :
    (st : Status) × (((st ≡ 0) ⊎ (st ≡ status_deleted))
      × (find?
            (has_msg_id 2)
            (run_site parts media_parts decoders arrivals site).world.session.tables.messages
          ≡ some (with_status st (message_row 2))))
unfolding program
run_site-Holds_example =
    run_site-Holds parts media_parts decoders arrivals site site-IsNumbered (message_row 2) refl

abbrev later : Session
later = record (run_site parts media_parts decoders arrivals site).world.session {
  fails = λ n. false;
}

run_site-read_pages_example :
    read_pages 1 2 (length (history later.tables.messages 1) + 1) 0 later
    ≡ history later.tables.messages 1
run_site-read_pages_example =
    run_site-read_pages parts media_parts decoders arrivals site site-IsNumbered 1 2 (omega arith)

-- The two pages of the room.
three_messages : map (λ m. m.id) (read_pages 1 2 3 0 later) ≡ 3 ∷ 2 ∷ 1 ∷ []
unfolding program
three_messages = refl
