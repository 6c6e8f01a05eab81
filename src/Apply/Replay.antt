-- ===== src/Apply/Replay.antt =====
-- Exactly once, in order: what a stream and its replay do.
use g_mountie.Prelude.{
  ℕ, ◌≤◌, ◌<◌, ◌≡◌, inl, inr, refl, ap, sym, subst, ◌∙◌, Bool, true, Option, some, List, [], ◌∷◌,
  ◌++◌, All, arith, Bool-cases, Option-cases, Bytes,
}
use g_mountie.Paths.{is_empty}
use g_mountie.Fserr.{FsError, fs_ok}
use g_mountie.Watermark.{Key, Record, Store, get_record, advance}
use g_mountie.Watermark.Laws.{advance-max}
use g_mountie.Apply.FileSystem.{Caller, FileSystem}
use g_mountie.Apply.Ops.{WalOp, World}
use g_mountie.Apply.Stream.{
  Halt, at_end, failed_at, Progress, Verdict, covered, stopped, applied, verdict, ApplyAck, ack,
  run, ack_of, conclude, key_of, apply,
}
use g_mountie.Apply.Rounds.{run_rises, run_failed, run_covers, run_covered}

module _ {W : Type 0} (api : FileSystem W) (subscribers : Bool) where
  abbrev pub resume : List ℕ → List WalOp → Progress W → Halt → Progress W
  resume revoked ops p at_end = run api subscribers p.world p.committed revoked ops
  resume revoked ops p (failed_at _ _) = p

  -- Two parts of a stream: the second is played where the first left off, unless the first halted;
  -- then nothing of the second is applied.
  pub run-append :
      (w : World W) (committed : ℕ) (revoked : List ℕ) (xs ys : List WalOp)
      → let p = run api subscribers w committed revoked xs in
        run api subscribers w committed revoked (xs ++ ys) ≡ resume revoked ys p p.halt
  run-append w committed revoked [] ys = unfold run in refl
  run-append w committed revoked (op ∷ xs) ys =
      go (verdict api subscribers w committed revoked op) refl (λ v c. run-append v c revoked xs ys)
    where
      go :
          (x : Verdict W)
          → verdict api subscribers w committed revoked op ≡ x
          → ((v : World W) (c : ℕ)
              → let p = run api subscribers v c revoked xs in
                run api subscribers v c revoked (xs ++ ys) ≡ resume revoked ys p p.halt)
          → let p = run api subscribers w committed revoked (op ∷ xs) in
            run api subscribers w committed revoked (op ∷ (xs ++ ys)) ≡ resume revoked ys p p.halt
      go covered e ih = unfold run in rw (e, run) (ih w committed)
      go (stopped v x) e ih = unfold run in rw (e, run) refl
      go (applied v) e ih = unfold run in rw (e, run) (ih v op.seq)

  -- An ack comes after the store has taken the watermark.
  acked :
      (eof db : Bool) (store : Store) (key : Key) (p : Progress W) {v : World W} {new : Store}
      {a : ApplyAck}
      → conclude eof db store key p ≡ (v, new, ack a)
      → (p.world ≡ v) × (advance db store key p.committed ≡ some new) × (ack_of p ≡ a)
  unfolding conclude
  acked eof db store key p {v} {new} {a} h =
      elim (Option-cases (advance db store key p.committed)) [
        | inl n ↦ absurd (ground (arith, h, n))
        | inr (t, s) ↦ ground (arith, h, s)
      ]

  at_end_of :
      (p : Progress W) (n : ℕ)
      → ((seq : ℕ) (e : FsError) → p.halt ≡ failed_at seq e → n < seq)
      → (ack_of p).failed_seq ≡ 0
      → p.halt ≡ at_end
  at_end_of p n above z = go p.halt refl
    where
      go : (x : Halt) → p.halt ≡ x → p.halt ≡ at_end
      go at_end e = e
      go (failed_at seq e) q = absurd (ground (arith, above seq e q, q, z))

  ack_of_at_end :
      (p : Progress W)
      → p.halt ≡ at_end
      → ack_of p ≡ record { watermark = p.committed; failed_seq = 0; fserr = fs_ok }
  ack_of_at_end p h = rw h

  -- An empty rest, at the watermark that the store holds.
  settled :
      (store : Store) (key : Key) (v : World W) (n : ℕ) (a : ApplyAck)
      → (get_record store key).watermark ≡ n
      → record { watermark = n; failed_seq = 0; fserr = fs_ok } ≡ a
      → conclude true true store key (record { world = v; committed = n; halt = at_end })
        ≡ (v, store, ack a)
  unfolding conclude advance
  settled store key v n a e q = ground (arith, e, q)

  conclude_again :
      (store new : Store) (key : Key) (w v : World W) (ops : List WalOp) (a : ApplyAck)
      → (let r = get_record store key in
          conclude true true store key (run api subscribers w r.watermark r.revoked_gens ops)
          ≡ (v, new, ack a))
      → a.failed_seq ≡ 0
      → let r = get_record new key in
        conclude true true new key (run api subscribers v r.watermark r.revoked_gens ops)
        ≡ (v, new, ack a)
  conclude_again store new key w v ops a h z =
      let r = get_record store key in
      let p = run api subscribers w r.watermark r.revoked_gens ops in
      let (world, stored, answer) = acked true true store key p h in
      let ended =
        at_end_of p 0
          (λ seq e q.
            let (above, _) = run_failed api subscribers w r.watermark r.revoked_gens ops seq e q in
            omega arith)
          (rw answer z) in
      let kept = advance-max true store new key p.committed stored in
      let high : (get_record new key).watermark ≡ p.committed =
        ap (λ (x : Record). x.watermark) kept
        ∙ omega (arith, run_rises api subscribers w r.watermark r.revoked_gens ops) in
      let again =
        run_covered api subscribers v (get_record new key).watermark
          (get_record new key).revoked_gens ops
          (subst (λ n. All (λ op. op.seq ≤ n) ops) (sym high)
            (run_covers api subscribers w r.watermark r.revoked_gens ops ended)) in
      rw again (
        settled new key v (get_record new key).watermark a refl
          (rw high (sym (ack_of_at_end p ended) ∙ answer)))

  -- A stream of which no operation failed is acked, and is then sent again, where the store can
  -- be read and its transactions commit: the second ack is the first one, and neither the
  -- filesystem nor the events nor the store change.
  pub apply_again :
      (bind : Bytes → Option Caller → Option Bytes) (w v : World W) (store new : Store)
      (ops : List WalOp) (a : ApplyAck)
      → apply api subscribers true true bind true true true w store ops ≡ (v, new, ack a)
      → a.failed_seq ≡ 0
      → apply api subscribers true true bind true true true v new ops ≡ (v, new, ack a)
  unfolding apply
  apply_again bind w v store new [] a h f = ground (arith, h)
  apply_again bind w v store new (op ∷ ops) a h f = elim (Bool-cases (is_empty op.volume)) [
    | inl z ↦ absurd (ground (arith, rw z at h))
    | inr m ↦ elim (Option-cases (bind op.volume op.caller)) [
      | inl n ↦ absurd (ground (arith, rw (m, n) at h))
      | inr (principal, b) ↦
          rw (m, b)
            (conclude_again store new (key_of op principal) w v (op ∷ ops) a (rw (m, b) at h) f)
    ]
  ]

  pub ack_of-watermark : (p : Progress W) → (ack_of p).watermark ≡ p.committed
  ack_of-watermark p = go p.halt refl
    where
      go : (x : Halt) → p.halt ≡ x → (ack_of p).watermark ≡ p.committed
      go at_end e = rw e
      go (failed_at seq x) e = rw e

  -- Persist before ack: whatever watermark a stream acks, at its end or where it halts, the store
  -- then holds for the stream's key, and it is no less than what the store held before.
  pub ack_durable :
      (bind : Bytes → Option Caller → Option Bytes) (readable eof db : Bool) (w v : World W)
      (store new : Store) (op : WalOp) (ops : List WalOp) (principal : Bytes) (a : ApplyAck)
      → bind op.volume op.caller ≡ some principal
      → apply api subscribers true true bind readable eof db w store (op ∷ ops) ≡ (v, new, ack a)
      → let key = key_of op principal in
        ((get_record new key).watermark ≡ a.watermark)
        × ((get_record store key).watermark ≤ a.watermark)
  unfolding apply
  ack_durable bind readable eof db w v store new op ops principal a b h =
      elim (Bool-cases (is_empty op.volume)) [
        | inl z ↦ absurd (ground (arith, rw z at h))
        | inr m ↦ elim (Bool-cases readable) [
          | inr u ↦ absurd (ground (arith, rw (m, b, u) at h))
          | inl u ↦ durable (rw (m, b, u) at h)
        ]
      ]
    where
      durable :
          (let r = get_record store (key_of op principal) in
            conclude eof db store
              (key_of op principal)
              (run api subscribers w r.watermark r.revoked_gens (op ∷ ops))
            ≡ (v, new, ack a))
          → let key = key_of op principal in
            ((get_record new key).watermark ≡ a.watermark)
            × ((get_record store key).watermark ≤ a.watermark)
      durable c =
          let key = key_of op principal in
          let r = get_record store key in
          let p = run api subscribers w r.watermark r.revoked_gens (op ∷ ops) in
          let (_, stored, answer) = acked eof db store key p c in
          let kept =
            ap (λ (x : Record). x.watermark) (advance-max db store new key p.committed stored) in
          let mark = sym (ack_of-watermark p) ∙ ap (λ (x : ApplyAck). x.watermark) answer in
          let rises = run_rises api subscribers w r.watermark r.revoked_gens (op ∷ ops) in
          (omega (arith, kept, mark, rises), omega (arith, mark, rises))
