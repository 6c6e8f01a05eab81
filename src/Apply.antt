-- ===== src/Apply.antt =====
-- The server's `Apply` stream, which replays a client's write-ahead log: pkg/server/controller/
-- apply.go, applyop.go, emit.go and `applySetAttr` of fs.go.
pub mod FileSystem
pub mod Ops
pub mod Stream
pub mod Rounds
pub mod Replay
pub mod Fencing
pub mod Tests
