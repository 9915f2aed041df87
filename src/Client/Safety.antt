-- ===== src/Client/Safety.antt =====
-- The game thread does not panic on what the server may send, but for the showdown.
pub mod Parsing
pub mod Rooms
pub mod Showdown
pub mod Handlers
