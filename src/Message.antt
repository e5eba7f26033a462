-- ===== src/Message.antt =====
-- internal/message: sending, recalling, marking and listing messages.
pub mod Model
pub mod Recall
pub mod Store
pub mod Request
pub mod Handler
