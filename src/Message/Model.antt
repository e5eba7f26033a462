-- ===== src/Message/Model.antt =====
-- internal/message/model.go: messages and marks.
use chatroom_server.Base.{ℕ, String, Option}

abbrev pub MessageType : Type 0
MessageType = ℕ

abbrev pub type_text : MessageType
type_text = 1

abbrev pub type_emoji : MessageType
type_emoji = 2

abbrev pub type_recall : MessageType
type_recall = 3

abbrev pub type_system : MessageType
type_system = 4

abbrev pub type_image : MessageType
type_image = 5

abbrev pub type_video : MessageType
type_video = 6

abbrev pub Status : Type 0
Status = ℕ

abbrev pub status_normal : Status
status_normal = 0

abbrev pub status_deleted : Status
status_deleted = 1

pub record Message : Type 0 where
  pub id : ℕ
  pub room_id : ℕ
  pub from_uid : ℕ
  pub content : String
  pub type : MessageType
  pub reply_msg_id : ℕ
  pub status : Status
  pub extra : Option String
  pub create_time : ℕ

pub record Mark : Type 0 where
  pub id : ℕ
  pub msg_id : ℕ
  pub uid : ℕ
  pub type : ℕ
  pub create_time : ℕ
