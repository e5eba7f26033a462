-- ===== src/Ws/Envelope.antt =====
-- internal/ws/envelope.go: the wrapper round each pushed payload. Its JSON text is made by
-- encoding/json, which the definitions that push take as a function that may fail.
use chatroom_server.Base.{String, Option}
use chatroom_server.Message.Model.{Message}
use chatroom_server.Call.Model.{Notification}

pub data Payload : Type 0 where
  message : Message → Payload
  notification : Notification → Payload

pub record Envelope : Type 0 where
  pub kind : String
  pub payload : Payload

-- `ws.Marshal`: no bytes, if encoding fails.
abbrev pub marshal : (Envelope → Option String) → String → Payload → Option String
marshal encode kind payload = encode (record { kind = kind; payload = payload })
