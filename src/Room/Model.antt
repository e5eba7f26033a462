-- ===== src/Room/Model.antt =====
-- internal/room/model.go: the rows of the room tables, and the numbers that stand for a type, a hot
-- flag and a role.
use chatroom_server.Base.{ℕ, String, Bool, Option, ◌==◌}

abbrev pub RoomType : Type 0
RoomType = ℕ

abbrev pub type_friend : RoomType
type_friend = 1

abbrev pub type_group : RoomType
type_group = 2

abbrev pub HotFlag : Type 0
HotFlag = ℕ

abbrev pub hot_no : HotFlag
hot_no = 0

abbrev pub hot_yes : HotFlag
hot_yes = 1

abbrev pub Role : Type 0
Role = ℕ

abbrev pub role_owner : Role
role_owner = 1

abbrev pub role_admin : Role
role_admin = 2

abbrev pub role_member : Role
role_member = 3

pub record Room : Type 0 where
  pub id : ℕ
  pub type : RoomType
  pub hot_flag : HotFlag
  pub active_time : ℕ
  pub last_msg_id : ℕ
  pub create_time : ℕ

abbrev pub is_hot : Room → Bool
is_hot r = r.hot_flag == hot_yes

abbrev pub is_group : Room → Bool
is_group r = r.type == type_group

pub record Group : Type 0 where
  pub id : ℕ
  pub room_id : ℕ
  pub name : String
  pub avatar : String

pub record Friend : Type 0 where
  pub id : ℕ
  pub room_id : ℕ
  pub uid1 : ℕ
  pub uid2 : ℕ

pub record Member : Type 0 where
  pub id : ℕ
  pub group_id : ℕ
  pub uid : ℕ
  pub role : Role
  pub create_time : ℕ

-- internal/room/store.go: `RoomSummary`, a row of a user's room list.
pub record RoomSummary : Type 0 where
  pub room_id : ℕ
  pub type : RoomType
  pub name : String
  pub peer_uid : ℕ
  pub active_time : ℕ
  pub last_message : Option String
  pub last_message_at : Option ℕ
  pub unread_count : ℕ
