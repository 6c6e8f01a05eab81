-- ===== src/Client/Flush/Losses.antt =====
-- No operation vanishes without a word: what a flush does not bring to the server is in the log
-- still or is reported lost.
use g_mountie.Prelude.{
  ℕ, ◌+◌, ◌^◌, ◌≤◌, ◌<◌, ◌≡◌, ◌≢◌, ◌⊎◌, inl, inr, refl, ap, sym, subst, ◌∙◌, Bool, true, false,
  Option, none, some, List, [], ◌∷◌, ◌++◌, ◌==◌, leb, lt→ltb, keep_if, All, arith, Bool-cases,
  Option-cases, Bytes,
}
use g_mountie.Fserr.{FsError}
use g_mountie.Apply.FileSystem.{Caller, FileSystem}
use g_mountie.Apply.Ops.{World}
use g_mountie.Apply.Stream.{ApplyAck, ack_of, run}
use g_mountie.Apply.Rounds.{run_cases, run_rises}
use g_mountie.Apply.Replay.{ack_of-watermark}
use g_mountie.Client.Log.{Op, replay, truncate}
use g_mountie.Client.Log.Laws.{WellFormed, prefix-replay, truncate-replay}
use g_mountie.Client.Overlay.{Time}
use g_mountie.Client.Overlay.Apply.{reset}
use g_mountie.Client.Flush.{op_to_wal_op, stream_of, Coordinator, commit_flushed, process_ack}

-- An operation of the list.
abbrev pub Listed : Op → List Op → Type 0
Listed op [] = ⊥
Listed op (x ∷ l) = (op ≡ x) ⊎ Listed op l

-- What an ack says of an operation of its stream: the watermark covers it, or it comes at or after
-- the one that failed.
abbrev pub Accounts : ApplyAck → ℕ → Type 0
Accounts a seq = (seq ≤ a.watermark) ⊎ ((0 < a.failed_seq) × (a.failed_seq ≤ seq))

keep_if-Listed :
    (p : Op → Bool) (op : Op) (l : List Op) → Listed op l → p op ≡ true → Listed op (keep_if p l)
keep_if-Listed p op [] h q = h
keep_if-Listed p op (x ∷ l) (inl e) q = rw (subst (λ y. p y ≡ true) e q) (inl e)
keep_if-Listed p op (x ∷ l) (inr h) q = elim (Bool-cases (p x)) [
  | inl y ↦ rw y (inr (keep_if-Listed p op l h q))
  | inr n ↦ rw n (keep_if-Listed p op l h q)
]

-- Each operation of a stream that is acked is covered by the ack's watermark or reported lost.
pub process_ack-Listed :
    (db readable : Bool) (now : Time) (c : Coordinator) (a : ApplyAck) (sent : List Op) (op : Op)
    → Listed op sent
    → Accounts a op.seq
    → let (d, lost, error) = process_ack db readable now c false (some a) sent in
      (op.seq ≤ d.watermark) ⊎ Listed op lost
unfolding process_ack
process_ack-Listed db readable now c a sent op h (inl le) = elim (Bool-cases (a.failed_seq == 0)) [
  | inl y ↦ rw y (inl le)
  | inr n ↦ rw n (inl le)
]
process_ack-Listed db readable now c a sent op h (inr (pos, le)) =
    elim (Bool-cases (a.failed_seq == 0)) [
      | inl y ↦ absurd (ground (arith, y, pos))
      | inr n ↦
          rw n (inr (keep_if-Listed (λ x. leb a.failed_seq x.seq) op sent h (ground (arith, le))))
    ]

-- After a stream that is acked with a watermark above 0 and no failure, where the log is in good
-- order and can be truncated and read: it holds just the operations above the watermark, as
-- before, and the overlay is what those operations make of an empty one.
pub process_ack-survivors :
    (now : Time) (c : Coordinator) (a : ApplyAck) (sent : List Op)
    → WellFormed c.log
    → a.failed_seq ≡ 0
    → 0 < a.watermark
    → a.watermark + 1 < 2 ^ 64
    → let (d, lost, error) = process_ack true true now c false (some a) sent in
      (error ≡ none)
      × (d.watermark ≡ a.watermark)
      × (replay d.log 0 ≡ replay c.log a.watermark)
      × (d.overlay ≡ reset (replay d.log 0) now)
      × WellFormed d.log
unfolding process_ack commit_flushed
process_ack-survivors now c a sent h z pos room =
    elim (Option-cases (truncate true c.log a.watermark)) [
      | inl n ↦ absurd (unfold truncate in ground (arith, n))
      | inr (t, s) ↦
          let (empty, reads, good, _, _) =
            truncate-replay c.log a.watermark a.watermark h (omega arith) room s in
          let whole =
            sym (prefix-replay t a.watermark good room)
            ∙ ap (λ l. l ++ replay t a.watermark) empty in
          rw (z, lt→ltb 0 a.watermark pos, s) (refl, refl, whole ∙ reads, refl, good)
    ]

-- A stream that breaks, or has no answer, changes nothing: all stays in the log for the next flush.
pub process_ack-broken :
    (db readable : Bool) (now : Time) (c : Coordinator) (ack : Option ApplyAck) (sent : List Op)
    (broken : Bool)
    → (broken ≡ true) ⊎ (ack ≡ none)
    → let (d, lost, error) = process_ack db readable now c broken ack sent in
      (d ≡ c) × (lost ≡ []) × (error ≢ none)
unfolding process_ack
process_ack-broken db readable now c ack sent true h = (refl, refl, λ q. ground (arith, q))
process_ack-broken db readable now c none sent false h = (refl, refl, λ q. ground (arith, q))
process_ack-broken db readable now c (some a) sent false h = absurd (ground (arith, h))

-- The numbers of a stream rise.
abbrev pub Rising : List Op → Type 0
Rising [] = Unit
Rising (op ∷ l) = All (λ x. op.seq < x.seq) l × Rising l

module _ {W : Type 0} (api : FileSystem W) (subscribers : Bool) where
  -- The server's side: the ack of a loop over a stream whose numbers rise accounts for each of them.
  run-Accounts :
      (w : World W) (committed : ℕ) (revoked : List ℕ) (volume : Bytes) (caller : Option Caller)
      (epoch : Bytes) (ops : List Op)
      → Rising ops
      → let p = run api subscribers w committed revoked (stream_of volume caller epoch ops) in
        All (λ op. Accounts (ack_of p) op.seq) ops
  unfolding op_to_wal_op
  run-Accounts w committed revoked volume caller epoch [] h = tt
  run-Accounts w committed revoked volume caller epoch (op ∷ ops) h =
      run_cases api subscribers (λ p. All (λ x. Accounts (ack_of p) x.seq) (op ∷ ops)) w committed
        revoked (op_to_wal_op volume caller epoch op) (stream_of volume caller epoch ops)
        (λ d.
          let p = run api subscribers w committed revoked (stream_of volume caller epoch ops) in
          (
            inl (
                omega (
                  arith,
                  d,
                  ack_of-watermark api subscribers p,
                  run_rises api subscribers w committed revoked (stream_of volume caller epoch ops),
                )),
            run-Accounts w committed revoked volume caller epoch ops h.1,
          ))
        (λ v e _ j. (inr (omega (arith, j.0), omega arith), later e ops h.0 j.0))
        (λ v _ _.
          let p = run api subscribers v op.seq revoked (stream_of volume caller epoch ops) in
          (
            inl (
                omega (
                  arith,
                  ack_of-watermark api subscribers p,
                  run_rises api subscribers v op.seq revoked (stream_of volume caller epoch ops),
                )),
            run-Accounts v op.seq revoked volume caller epoch ops h.1,
          ))
    where
      later :
          (e : FsError) (l : List Op)
          → All (λ x. op.seq < x.seq) l
          → committed < op.seq
          → All
              (λ x.
                Accounts (record { watermark = committed; failed_seq = op.seq; fserr = e }) x.seq)
              l
      later e [] a c = tt
      later e (x ∷ l) a c = (inr (omega (arith, c), omega (arith, a.0)), later e l a.1 c)

  All-Listed :
      (a : ApplyAck) (op : Op) (l : List Op)
      → All (λ x. Accounts a x.seq) l
      → Listed op l
      → Accounts a op.seq
  All-Listed a op [] h m = absurd m
  All-Listed a op (x ∷ l) h (inl e) = subst (λ (y : Op). Accounts a y.seq) (sym e) h.0
  All-Listed a op (x ∷ l) h (inr r) = All-Listed a op l h.1 r

  -- The client's batch, whose numbers rise, against the server's loop: whatever the loop does and
  -- wherever it halts, each operation of the batch is in the end covered by the watermark that
  -- the client keeps, or reported lost.
  pub batch-Listed :
      (w : World W) (committed : ℕ) (revoked : List ℕ) (volume : Bytes) (caller : Option Caller)
      (epoch : Bytes) (db readable : Bool) (now : Time) (c : Coordinator) (sent : List Op) (op : Op)
      → Rising sent
      → Listed op sent
      → let a =
          ack_of (run api subscribers w committed revoked (stream_of volume caller epoch sent)) in
        let (d, lost, error) = process_ack db readable now c false (some a) sent in
        (op.seq ≤ d.watermark) ⊎ Listed op lost
  batch-Listed w committed revoked volume caller epoch db readable now c sent op h m =
      let a =
        ack_of (run api subscribers w committed revoked (stream_of volume caller epoch sent)) in
      process_ack-Listed db readable now c a sent op m
        (All-Listed a op sent (run-Accounts w committed revoked volume caller epoch sent h) m)
