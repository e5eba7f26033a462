-- ===== src/Room.antt =====
-- internal/room: rooms, their members, and the operations on them.
pub mod Model
pub mod Rows
pub mod Store
pub mod RoomList
pub mod Role
pub mod Recipients
pub mod Handler
pub mod Requests
pub mod Ownership
pub mod Owner
