-- ===== src/Server.antt =====
-- The server's sessions, recall streams and change events.
pub mod Recalls
pub mod Events
pub mod Sessions
pub mod Requests
pub mod Manager
mod Tests
