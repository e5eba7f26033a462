-- ===== src/Server.antt =====
-- The whole server: cmd/server/main.go.
pub mod Sound
pub mod Requests
pub mod Run
pub mod Mux
pub mod Routes
pub mod Site
pub mod Startup
pub mod Shutdown
pub mod Log
pub mod Contacts
