-- ===== src/Apply/Stream.antt =====
-- The loop of `Apply`: the operations of one stream in order, one watermark for all.
use g_mountie.Prelude.{
  ℕ, Bool, true, false, ◌&&◌, ◌||◌, not, Option, none, some, List, [], ◌∷◌, ◌==◌, ltb, leb, any,
  if◌then◌else◌, Bytes,
}
use g_mountie.Paths.{is_empty}
use g_mountie.Fserr.{FsError, fs_ok, estale, from_errno}
use g_mountie.Watermark.{Key, Store, get_record, advance}
use g_mountie.Apply.FileSystem.{Caller, create_context, FileSystem}
use g_mountie.Apply.Ops.{WalOp, World, apply_wal_op, idempotent_skip}

unfoldable pub is_revoked_gen : ℕ → List ℕ → Bool
is_revoked_gen gen revoked = any (λ r. r == gen) revoked

-- Where the loop stops: at the end of the stream, or at an operation with its error.
pub data Halt : Type 0 where
  at_end : Halt
  failed_at : ℕ → FsError → Halt

pub record Progress (W : Type 0) : Type 0 where
  pub world : World W
  pub committed : ℕ
  pub halt : Halt

-- proto.ApplyAck
pub record ApplyAck : Type 0 where
  pub watermark : ℕ
  pub failed_seq : ℕ
  pub fserr : FsError

pub data Refusal : Type 0 where
  unauthenticated unconfigured no_volume bind_failed get_failed recv_failed advance_failed : Refusal

pub data Reply : Type 0 where
  ack : ApplyAck → Reply
  refused : Refusal → Reply

-- The operation is covered by the watermark.
abbrev pub is_done : ℕ → WalOp → Bool
is_done committed op = leb op.seq committed

abbrev pub is_fenced : List ℕ → WalOp → Bool
is_fenced revoked op = ltb 0 op.gen && is_revoked_gen op.gen revoked

-- One round of the loop: the operation is skipped, ends the loop, or is committed.
pub data Verdict (W : Type 0) : Type 0 where
  covered : Verdict W
  stopped : World W → FsError → Verdict W
  applied : World W → Verdict W

abbrev pub halts : Halt → Bool
halts at_end = false
halts (failed_at _ _) = true

abbrev pub ack_of : {W : Type 0} → Progress W → ApplyAck
ack_of p = elim p.halt [
  | at_end ↦ record { watermark = p.committed; failed_seq = 0; fserr = fs_ok }
  | failed_at seq e ↦ record { watermark = p.committed; failed_seq = seq; fserr = e }
]

abbrev pub send : {W : Type 0} → World W → Store → ApplyAck → Option Store → World W × Store × Reply
send w old a none = (w, old, refused advance_failed)
send w old a (some new) = (w, new, ack a)

-- After the loop: the watermark is made durable before the ack. A stream that breaks off before
-- the loop halts is not acked and not recorded.
unfoldable pub conclude :
    {W : Type 0} → Bool → Bool → Store → Key → Progress W → World W × Store × Reply
conclude eof db store key p =
    if eof || halts p.halt
    then send p.world store (ack_of p) (advance db store key p.committed)
    else (p.world, store, refused recv_failed)

-- The record that a stream is bound to, by its first operation.
abbrev pub key_of : WalOp → Bytes → Key
key_of op principal = record { identity = principal; volume = op.volume; epoch = op.wal_epoch }

module _ {W : Type 0} (api : FileSystem W) (subscribers : Bool) where
  unfoldable pub verdict : World W → ℕ → List ℕ → WalOp → Verdict W
  unfolding is_revoked_gen
  verdict w committed revoked op =
      let c = create_context op.caller in
      let (v, st) = apply_wal_op api subscribers w c op.body in
      if is_done committed op
      then covered
      else (if is_fenced revoked op
          then stopped w estale
          else (if st == 0
              then applied v
              else (if idempotent_skip api subscribers v c op.body st
                  then applied v
                  else stopped v (from_errno st))))

  -- The loop from an operation on, with the watermark so far.
  unfoldable pub run : World W → ℕ → List ℕ → List WalOp → Progress W
  run w committed revoked [] = record { world = w; committed = committed; halt = at_end }
  run w committed revoked (op ∷ ops) = elim (verdict w committed revoked op) [
    | covered ↦ run w committed revoked ops
    | stopped v e ↦ record { world = v; committed = committed; halt = failed_at op.seq e }
    | applied v ↦ run v op.seq revoked ops
  ]

  abbrev pub serve :
      Bool
      → Bool
      → Bool
      → World W
      → Store
      → WalOp
      → List WalOp
      → Option Bytes
      → World W × Store × Reply
  serve readable eof db w store op ops none = (w, store, refused bind_failed)
  serve readable eof db w store op ops (some principal) =
      let key = key_of op principal in
      let r = get_record store key in
      if readable
      then conclude eof db store key (run w r.watermark r.revoked_gens (op ∷ ops))
      else (w, store, refused get_failed)

  abbrev pub start :
      (Bytes → Option Caller → Option Bytes)
      → Bool
      → Bool
      → Bool
      → World W
      → Store
      → List WalOp
      → World W × Store × Reply
  start bind readable eof db w store [] =
      if eof
      then (w, store, ack (record { watermark = 0; failed_seq = 0; fserr = fs_ok }))
      else (w, store, refused recv_failed)
  start bind readable eof db w store (op ∷ ops) =
      if is_empty op.volume
      then (w, store, refused no_volume)
      else serve readable eof db w store op ops (bind op.volume op.caller)

  -- `Apply`. The session's check, whether a store is configured, the binding of the volume to the
  -- caller's principal, whether the store can be read, whether the stream ends by a half-close, and
  -- whether the store's transaction commits are arguments.
  unfoldable pub apply :
      Bool
      → Bool
      → (Bytes → Option Caller → Option Bytes)
      → Bool
      → Bool
      → Bool
      → World W
      → Store
      → List WalOp
      → World W × Store × Reply
  apply session configured bind readable eof db w store ops =
      if not session
      then (w, store, refused unauthenticated)
      else (if not configured
          then (w, store, refused unconfigured)
          else start bind readable eof db w store ops)
