-- ===== src/Message/Request.antt =====
-- internal/message/handler.go: the request types, their checks and their defaults. An `Extra` of no bytes
-- is `none`.
use chatroom_server.Base.{
  ℕ, String, Bool, true, false, ◌&&◌, ◌||◌, Option, none, some, ltb, leb, ◌==◌, if◌then◌else◌,
}
use chatroom_server.Http.{Response, write_error, bad_request}
use chatroom_server.Message.Model.{
  Message, MessageType, type_text, type_emoji, type_image, type_video, status_normal,
}
use text.Mathlib.Text.{◌==◌ as str_eq}

pub record SendRequest : Type 0 where
  pub room_id : ℕ
  pub content : String
  pub type : MessageType
  pub reply_msg_id : ℕ
  pub extra : Option String

-- `err != nil || req.RoomID == 0`, and the default of `req.Type`
unfoldable pub with_room : Option SendRequest → Option SendRequest
with_room none = none
with_room (some req) =
    if req.room_id == 0
    then none
    else some (record req { type = if req.type == 0 then type_text else req.type })

abbrev pub is_none : {A : Type 0} → Option A → Bool
is_none none = true
is_none (some a) = false

-- The `switch` on the type of the message: the response that ends the request, if any.
unfoldable pub refusal : SendRequest → Option Response
refusal req =
    if req.type == type_text || req.type == type_emoji
    then (if str_eq req.content ""
        then some (write_error bad_request "content is required")
        else none)
    else if req.type == type_image || req.type == type_video
    then (if is_none req.extra
        then some (write_error bad_request "extra with file_id is required")
        else none)
    else some (write_error bad_request "unsupported message type")

-- The message that `send` builds; the id and the time are set after the insertion.
abbrev pub new_message : ℕ → SendRequest → Message
new_message uid req = record {
  id = 0;
  room_id = req.room_id;
  from_uid = uid;
  content = req.content;
  type = req.type;
  reply_msg_id = req.reply_msg_id;
  status = status_normal;
  extra = req.extra;
  create_time = 0;
}

abbrev pub positive_limit : Option ℕ → ℕ
positive_limit none = 20
positive_limit (some l) = if ltb 0 l && leb l 100 then l else 20

-- `beforeID, _ := …`: 0, if it cannot be parsed.
abbrev pub or_zero : Option ℕ → ℕ
or_zero none = 0
or_zero (some n) = n
