-- ===== src/Server/Requests.antt =====
-- The routes of the packages message, call and auth, and what stands behind the middleware: the
-- functions `RegisterRoutes`, `Register` and `RegisterProtected`, and `buildMux` of cmd/server/main.go.
use chatroom_server.Base.{ℕ, String, Option, List}
use chatroom_server.MemberCache.{MemberCache}
use chatroom_server.World.{Handler}
use chatroom_server.Http.{Response}
use chatroom_server.Room.Requests as Rooms
use chatroom_server.Message.Request.{SendRequest}
use chatroom_server.Message.Handler
use chatroom_server.Call.Token.{AccessTokenClaims}
use chatroom_server.Call.Handler as Calls
use chatroom_server.Call.Handler.{Config, InviteRequest}
use chatroom_server.Auth.Token.{Jwt, middleware}
use chatroom_server.Auth.Handler as Users
use chatroom_server.Auth.Handler.{RegisterRequest, LoginRequest, UpdateProfileRequest, Bcrypt}
use chatroom_server.Ws.Envelope.{Envelope}

-- What the handlers are built from: the libraries' functions, and the settings.
pub record Parts : Type 0 where
  pub encode : Envelope → Option String
  pub sign : AccessTokenClaims → String → Option String
  pub collate : String → String
  pub bcrypt : Bcrypt
  pub jwt : Jwt
  pub secret : String
  pub ttl : ℕ
  pub calls : Config

pub data MessageRequest : Type 0 where
  send : Option SendRequest → MessageRequest
  recall : Option ℕ → MessageRequest
  mark : Option ℕ → Option ℕ → MessageRequest
  page : Option ℕ → Option ℕ → Option ℕ → MessageRequest

pub data CallRequest : Type 0 where
  token : Option ℕ → CallRequest
  invite : Option InviteRequest → CallRequest

pub data UserRequest : Type 0 where
  lookup : Option (List ℕ) → UserRequest
  update_profile : Option UpdateProfileRequest → UserRequest

-- The routes of `protected`.
pub data Protected : Type 0 where
  rooms : Rooms.Request → Protected
  messages : MessageRequest → Protected
  calls : CallRequest → Protected
  users : UserRequest → Protected

-- A request, with its Authorization header where the middleware looks at it.
pub data Request : Type 0 where
  register : Option RegisterRequest → Request
  login : Option LoginRequest → Request
  protected : String → Protected → Request

module _ {C : MemberCache} (P : Parts) where
  abbrev pub handle_message : ℕ → MessageRequest → Handler C Response
  handle_message uid (send body) = Handler.send P.encode uid body
  handle_message uid (recall id) = Handler.recall P.encode uid id
  handle_message uid (mark id body) = Handler.mark uid id body
  handle_message uid (page room before limit) = Handler.page room before limit

  abbrev pub handle_call : ℕ → CallRequest → Handler C Response
  handle_call uid (token body) = Calls.token P.sign P.calls uid body
  handle_call uid (invite body) = Calls.invite P.encode uid body

  abbrev pub handle_user : ℕ → UserRequest → Handler C Response
  handle_user uid (lookup body) = Users.handle_lookup body
  handle_user uid (update_profile body) = Users.handle_update_profile uid body

  abbrev pub handle_protected : Protected → ℕ → Handler C Response
  handle_protected (rooms req) uid = Rooms.handle uid req
  handle_protected (messages req) uid = handle_message uid req
  handle_protected (calls req) uid = handle_call uid req
  handle_protected (users req) uid = handle_user uid req

  -- `buildMux`
  abbrev pub respond : Request → Handler C Response
  respond (register body) = Users.handle_register P.collate P.bcrypt body
  respond (login body) = Users.handle_login P.collate P.bcrypt P.jwt P.secret P.ttl body
  respond (protected header req) = middleware P.jwt P.secret (handle_protected req) header
