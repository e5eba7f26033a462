-- ===== src/Tests.antt =====
-- Runs at concrete data, and the theorems applied to it.
mod Data
mod Rooms
mod Messages
mod Calls
mod Accounts
mod Fractions
mod Files
mod Caches
mod Sockets
mod Settings
mod RoomLists
mod Servers
mod Sites
mod Starts
