-- ===== src/Call.antt =====
-- internal/call: tokens for calls, and invitations to them.
pub mod Model
pub mod Token
pub mod Handler
