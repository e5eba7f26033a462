-- ===== src/Auth.antt =====
-- internal/auth: users, passwords and bearer tokens.
pub mod Model
pub mod Store
pub mod Token
pub mod Handler
