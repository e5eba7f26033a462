-- ===== src/Http.antt =====
-- The responses that the handlers write: `writeJSON` and `writeError`, which each package declares
-- alike.
use chatroom_server.Base.{ℕ, String, List}
use chatroom_server.Room.Model.{RoomSummary, Member}
use chatroom_server.Message.Model.{Message}

-- `uploadResponse` of internal/media/handler.go; a field with `omitempty` is left out if it is zero.
pub record UploadResponse : Type 0 where
  pub file_id : String
  pub thumb_id : String
  pub mime : String
  pub size : ℕ
  pub width : ℕ
  pub height : ℕ

-- `userInfo` of internal/auth/handler.go
pub record UserInfo : Type 0 where
  pub uid : ℕ
  pub nickname : String
  pub avatar : String

pub data Body : Type 0 where
  done : Body
  error : ℕ → String → Body
  room_id : ℕ → Body
  rooms : List RoomSummary → Body
  members : List Member → Body
  message : Message → Body
  messages : List Message → Body
  call_token : String → String → Body
  new_uid : ℕ → Body
  login_token : String → Body
  user_infos : List UserInfo → Body
  profile : UserInfo → Body
  uploaded : UploadResponse → Body
  file_body : String → List ℕ → Body
  health : String → Body
  text : String → Body

pub record Response : Type 0 where
  pub status : ℕ
  pub body : Body

-- `writeJSON(w, status, v)`
abbrev pub write_json : ℕ → Body → Response
write_json status body = record { status = status; body = body }

-- `writeError(w, status, msg)`
abbrev pub write_error : ℕ → String → Response
write_error status msg = write_json status (error status msg)

-- `http.Error(w, msg, status)`
abbrev pub http_error : String → ℕ → Response
http_error msg status = record { status = status; body = text msg }

abbrev pub status_ok : ℕ
status_ok = 200

abbrev pub bad_request : ℕ
bad_request = 400

abbrev pub unauthorized : ℕ
unauthorized = 401

abbrev pub conflict : ℕ
conflict = 409

abbrev pub forbidden : ℕ
forbidden = 403

abbrev pub status_not_found : ℕ
status_not_found = 404

abbrev pub method_not_allowed : ℕ
method_not_allowed = 405

abbrev pub switching_protocols : ℕ
switching_protocols = 101

abbrev pub internal_error : ℕ
internal_error = 500
