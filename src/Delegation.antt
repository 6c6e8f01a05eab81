-- ===== src/Delegation.antt =====
-- The server's write-delegation arbiter, pkg/server/delegation/.
pub mod Table
pub mod Cooldown
pub mod Arbiter
mod Tests
