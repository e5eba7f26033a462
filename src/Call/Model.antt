-- ===== src/Call/Model.antt =====
-- internal/call/handler.go: what is pushed to the others when someone starts a call.
use chatroom_server.Base.{ℕ, String}

pub record Notification : Type 0 where
  pub room_id : ℕ
  pub from_uid : ℕ
  pub mode : String
