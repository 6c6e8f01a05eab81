-- ===== src/Lib.antt =====
-- The write path of gMountie, a network filesystem with write delegations.
--
-- A client that holds a delegation defers its writes in a log; the server replays the log by the
-- Apply stream. The server's arbiter grants delegations on subtrees, recalls them when another
-- session writes there, and fences the generation of the delegation in a durable store, so that a
-- client that was cut off cannot replay over the new owner.
--
-- Paths: pkg/server/delegation/table.go contains, pkg/client/backend/cache/prefix_invalidate.go.
-- Delegation.Table: pkg/server/delegation/table.go, method by method.
-- Delegation.Cooldown: pkg/server/delegation/cooldown.go.
-- Delegation.Arbiter: pkg/server/delegation/arbiter.go. OnMutation releases its mutex while the
--   recall is on its way, so it is begin_mutation, then what other calls do, then finish_mutation.
-- Watermark: pkg/server/watermark/bbolt.go and store.go. Whether a transaction commits is an
--   argument of each operation.
-- Fserr: pkg/common/fserr/fserr.go and fserr_linux.go.
-- Apply: pkg/server/controller/apply.go, applyop.go, emit.go and applySetAttr of fs.go. The
--   filesystem is an interface (Apply.FileSystem), so the results hold for each filesystem; the
--   binding of a volume to a principal is an argument. Apply.Fencing joins the arbiter, the store
--   and the stream.
--
-- Server.Recalls: pkg/server/delegation/recall.go, with the other calls while a recall waits.
-- Server.Events: pkg/server/io/eventbus.go. Subscribers are numbers in a store.
-- Server.Sessions: the open files of sessionImpl in pkg/server/service/session.go; each atomic access
--   is an action, and any list of actions is an interleaving.
-- Server.Manager: sessionManagerImpl of the same file; each access of its maps is an action.
-- Server.Requests: DoOnce of the same file and pkg/server/controller/idempotency.go. The LRU cache is a
--   parameter, which keeps its replies while no more are added than it has room for.
--
-- Client.Log: pkg/client/backend/wal/log.go.
-- Client.Intervals, Client.Overlay: pkg/client/backend/wal/overlay.go; Overlay.Content holds the bytes
--   of a file, Overlay.Apply what an operation does, Overlay.Merge the reads.
-- Client.Flush: pkg/client/backend/wal/flush.go and commitFlushed of wal.go. Flush.Losses puts the
--   client's ack handling against the server's loop of Apply.
-- Client.Manager: pkg/client/backend/delegation/manager.go, and RecordOp of pkg/client/backend/wal/
--   wal.go, which it admits. A recall is its two halves with the other calls in between.
-- Client.Overlay.Listing: ListMerge of pkg/client/backend/wal/overlay.go. Overlay.Refines reads the
--   overlay of a whole log against a file's bytes.
-- Client.Layer: pkg/client/backend/wal/layer.go. What the inner backend answers is an argument of each
--   read; Layer.Deferral is the admission loop of the mutations.
-- Client.Chunks: the disk tier in pkg/client/backend/cache/data.go and store.go, for one chunk.
-- Client.Cache: attr.go, dir.go, validity.go, and Stat, Lookup and ListDir of backend.go, there too.
-- Client.Coalesce: pkg/client/backend/transport/coalesce.go.
-- Client.Accountant: pkg/client/backend/cache/accountant.go.
--
-- Generations, the client's sequence numbers and versions, and the version token of an attribute wrap
-- at 64 bits, as in the source; results that need a counter to rise say that it has room. Times,
-- byte counts and the generations of the disk tier do not wrap. Two loops take fuel: the eviction of
-- the accountant, which has one round for each entry, and the batches of a flush, which have one for
-- each pending operation; both are shown to be enough. Every other loop follows a list.
--
-- Not modelled: gRPC, TLS and the FUSE bindings, which are I/O; the write set of the
-- client's delegation manager; the cached reads of a file's bytes, and the caches of extended
-- attributes and access checks; the client's transport; the unary handlers.
pub mod Prelude
pub mod Paths
pub mod Delegation
pub mod Watermark
pub mod Fserr
pub mod Apply
pub mod Client
pub mod Server
