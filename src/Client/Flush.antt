-- ===== src/Client/Flush.antt =====
-- The flush of the client's log, pkg/client/backend/wal/flush.go, with commitFlushed of wal.go. Both
-- run under the flush mutex; what is recorded meanwhile is in the log that they are given. The
-- answer of the stream, whether a transaction of the log commits or can be read, and the time are
-- arguments. Log lines, metrics and the wake-up of waiting writers are left out.
pub mod Chunks
pub mod Losses
use g_mountie.Prelude.{
  ℕ, zero, suc, ◌+◌, ◌*◌, Bool, true, false, ◌&&◌, not, Option, none, some, List, [], ◌∷◌, ◌==◌,
  ltb, leb, length, keep_if, map, if◌then◌else◌, Bytes,
}
use g_mountie.Fserr.{FsError}
use g_mountie.Apply.FileSystem.{Caller}
use g_mountie.Apply.Ops.{OpBody, SetAttrRequest, WalOp}
use g_mountie.Apply.Stream.{ApplyAck}
use g_mountie.Client.Log.{
  Op, OpKind, op_write, op_create, op_set_attr, op_mkdir, op_rename, op_unlink, op_rmdir,
  op_symlink, op_set_xattr, op_remove_xattr, BboltLog, replay, truncate, prefix,
}
use g_mountie.Client.Overlay.{Time, Overlay, drop_subtree}
use g_mountie.Client.Overlay.Apply.{has_bit, reset}

abbrev pub when : Bool → ℕ → ℕ
when b n = if b then n else 0

abbrev pub time_when : Bool → ℕ → ℕ → Option ℕ
time_when b sec nsec = if b then some (sec * 1000000000 + nsec) else none

-- fsconv.XAttrModeToProto
abbrev pub xattr_mode_to_proto : ℕ → ℕ
xattr_mode_to_proto flags = if has_bit flags 1 then 1 else (if has_bit flags 2 then 2 else 0)

-- The operation of a record; a field of a SetAttr goes with its bit.
unfoldable pub body_of : OpKind → Op → OpBody
body_of op_write op = OpBody.write op.path op.content op.offset
body_of op_create op = OpBody.create op.path op.flags op.mode
body_of op_mkdir op = OpBody.mkdir op.path op.mode
body_of op_unlink op = OpBody.unlink op.path
body_of op_rmdir op = OpBody.rmdir op.path
body_of op_rename op = OpBody.rename op.path op.new_path
body_of op_symlink op = OpBody.symlink op.content op.path
body_of op_set_attr op = OpBody.set_attr (record {
  path = op.path;
  valid = op.valid;
  size = when (has_bit op.valid 8) op.size;
  mode = when (has_bit op.valid 1) op.mode;
  uid = when (has_bit op.valid 2) op.uid;
  gid = when (has_bit op.valid 4) op.gid;
  atime = time_when (has_bit op.valid 16) op.atime_sec op.atime_nsec;
  mtime = time_when (has_bit op.valid 32) op.mtime_sec op.mtime_nsec;
})
body_of op_set_xattr op =
    OpBody.set_xattr op.path op.xattr_name op.xattr_value (xattr_mode_to_proto op.xattr_flags)
body_of op_remove_xattr op = OpBody.remove_xattr op.path op.xattr_name

-- `opToWalOp`
unfoldable pub op_to_wal_op : Bytes → Option Caller → Bytes → Op → WalOp
unfolding body_of
op_to_wal_op volume caller wal_epoch op = record {
  seq = op.seq;
  gen = op.gen;
  wal_epoch = wal_epoch;
  volume = volume;
  caller = caller;
  body = body_of op.kind op;
}

-- The stream that `applyOps` sends.
abbrev pub stream_of : Bytes → Option Caller → Bytes → List Op → List WalOp
stream_of volume caller wal_epoch ops = map (λ op. op_to_wal_op volume caller wal_epoch op) ops

-- `applyLimits`
unfoldable pub apply_limits : ℕ → ℕ → ℕ × ℕ
apply_limits max_ops max_bytes =
    (if max_ops == 0 then 2000 else max_ops, if max_bytes == 0 then 16777216 else max_bytes)

-- The inner loop of `Flush`: a batch and the rest, from the counts so far.
unfoldable pub fill : ℕ → ℕ → ℕ → ℕ → List Op → List Op × List Op
fill max_ops max_bytes ops bytes [] = ([], [])
fill max_ops max_bytes ops bytes (op ∷ l) =
    let (batch, rest) = fill max_ops max_bytes (ops + 1) (bytes + length op.content) l in
    if ltb ops max_ops && ltb bytes max_bytes then (op ∷ batch, rest) else ([], op ∷ l)

-- The batches of `Flush`, on fuel.
unfoldable pub chunks : ℕ → ℕ → ℕ → List Op → List (List Op)
unfolding fill
chunks zero max_ops max_bytes ops = []
chunks (suc n) max_ops max_bytes [] = []
chunks (suc n) max_ops max_bytes (op ∷ ops) =
    let (batch, rest) = fill max_ops max_bytes 0 0 (op ∷ ops) in
    batch ∷ chunks n max_ops max_bytes rest

pub record Coordinator : Type 0 where
  pub log : BboltLog
  pub overlay : Overlay
  pub watermark : ℕ
  pub max_apply_ops : ℕ
  pub max_apply_bytes : ℕ

pub data FlushError : Type 0 where
  transport_error nil_ack : FlushError
  ordered_halt : ℕ → FsError → FlushError

abbrev pub or_log : BboltLog → Option BboltLog → BboltLog
or_log l none = l
or_log l (some t) = t

-- `commitFlushed`: a truncation that does not commit is passed over.
unfoldable pub commit_flushed : Bool → Bool → Time → Coordinator → ℕ → Coordinator
commit_flushed db readable now c through =
    let l = if ltb 0 through then or_log c.log (truncate db c.log through) else c.log in
    record c {
      log = l;
      overlay = if readable then reset (replay l 0) now else drop_subtree c.overlay [];
    }

unfoldable pub last_seq : List Op → Option ℕ
last_seq [] = none
last_seq (op ∷ []) = some op.seq
last_seq (_ ∷ op ∷ ops) = last_seq (op ∷ ops)

abbrev pub commit_last : Bool → Bool → Time → Coordinator → Option ℕ → Coordinator
commit_last db readable now c none = c
commit_last db readable now c (some n) = commit_flushed db readable now c n

-- `processAck`: the coordinator, the operations that are reported lost, and the error.
unfoldable pub process_ack :
    Bool
    → Bool
    → Time
    → Coordinator
    → Bool
    → Option ApplyAck
    → List Op
    → Coordinator × List Op × Option FlushError
process_ack db readable now c true ack sent = (c, [], some transport_error)
process_ack db readable now c false none sent = (c, [], some nil_ack)
process_ack db readable now c false (some ack) sent =
    if ack.failed_seq == 0
    then (
      record (commit_flushed db readable now c ack.watermark) { watermark = ack.watermark },
      [],
      none,
    )
    else (
      record (commit_last db readable now c (last_seq sent)) { watermark = ack.watermark },
      keep_if (λ op. leb ack.failed_seq op.seq) sent,
      some (ordered_halt ack.failed_seq ack.fserr),
    )

-- One stream: the state of the server, its answer, and whether the transport failed.
module _ {S : Type 0} (send : S → List Op → S × Option ApplyAck × Bool) where
  -- The loop over the batches, until an error.
  unfoldable pub send_batches :
      Bool
      → Bool
      → Time
      → S
      → Coordinator
      → List (List Op)
      → S × Coordinator × List Op × Option FlushError
  send_batches db readable now s c [] = (s, c, [], none)
  send_batches db readable now s c (batch ∷ batches) =
      let (t, ack, broken) = send s batch in
      let (d, lost, error) = process_ack db readable now c broken ack batch in
      elim error [ some e ↦ (t, d, lost, some e) | none ↦ send_batches db readable now t d batches ]

  -- `Flush`: what the log holds up to a number and above the watermark, in batches.
  unfoldable pub flush :
      Bool → Bool → Time → S → Coordinator → ℕ → S × Coordinator × List Op × Option FlushError
  unfolding chunks
  flush db readable now s c through_seq =
      let pending = keep_if (λ op. ltb c.watermark op.seq) (prefix c.log through_seq) in
      let (max_ops, max_bytes) = apply_limits c.max_apply_ops c.max_apply_bytes in
      send_batches db readable now s c (chunks (length pending) max_ops max_bytes pending)

  -- `FlushForRecall`: one flush of all that the log holds.
  unfoldable pub flush_for_recall :
      Bool → Bool → Time → S → Coordinator → S × Coordinator × List Op × Option FlushError
  unfolding last_seq
  flush_for_recall db readable now s c = elim (last_seq (replay c.log 0)) [
    | none ↦ (s, c, [], none)
    | some n ↦ flush db readable now s c n
  ]

  -- `Replay`: after a reconnect, one stream of all above the watermark that the server resumes at.
  unfoldable pub replay_log :
      Bool → Bool → Time → S → Coordinator → ℕ → S × Coordinator × List Op × Option FlushError
  replay_log db readable now s c resume_watermark = elim (replay c.log resume_watermark) [
    | [] ↦ (s, c, [], none)
    | op ∷ ops ↦
        let (t, ack, broken) = send s (op ∷ ops) in
        let (d, lost, error) = process_ack db readable now c broken ack (op ∷ ops) in
        (t, d, lost, error)
  ]
