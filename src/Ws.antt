-- ===== src/Ws.antt =====
-- internal/ws: the connections of the users, and what is pushed over them.
pub mod Envelope
pub mod Hub
pub mod Handler
