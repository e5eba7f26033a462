-- ===== src/Auth/Model.antt =====
-- internal/auth/store.go: `User`, a row of the table of users.
use chatroom_server.Base.{ℕ, String}

pub record User : Type 0 where
  pub id : ℕ
  pub username : String
  pub password_hash : String
  pub nickname : String
  pub avatar : String
  pub create_time : ℕ
