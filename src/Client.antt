-- ===== src/Client.antt =====
-- The client's write path and cache, pkg/client/backend/.
pub mod Log
pub mod Intervals
pub mod Overlay
pub mod Flush
pub mod Manager
pub mod Layer
pub mod Coalesce
pub mod Accountant
pub mod Chunks
pub mod Cache
mod Tests
