-- ===== src/Apply/Rounds.antt =====
-- One round of the loop of `Apply`, and what holds of all its rounds.
use g_mountie.Prelude.{
  ℕ, ◌≤◌, ◌<◌, ◌≡◌, ◌≢◌, inl, inr, refl, Bool, true, false, List, [], ◌∷◌, ◌==◌, leb→le, All, arith,
  Bool-cases, if◌then◌else◌,
}
use g_mountie.Fserr.{FsError, fs_ok, from_errno}
use g_mountie.Fserr.RoundTrip.{to_errno-from_errno}
use g_mountie.Apply.FileSystem.{Caller, create_context, FileSystem}
use g_mountie.Apply.Ops.{WalOp, World, apply_wal_op, idempotent_skip}
use g_mountie.Apply.Stream.{
  at_end, failed_at, Progress, Verdict, covered, stopped, applied, verdict, is_done, is_fenced, run,
}

module _ {W : Type 0} (api : FileSystem W) (subscribers : Bool) where
  -- What a round's answer says of the operation.
  abbrev Judged : World W → ℕ → List ℕ → WalOp → Verdict W → Type 0
  Judged w committed revoked op covered = op.seq ≤ committed
  Judged w committed revoked op (stopped v e) = (committed < op.seq) × (e ≢ fs_ok)
  Judged w committed revoked op (applied v) = (committed < op.seq) × (is_fenced revoked op ≡ false)

  failure_not_ok : (st : ℕ) → (st == 0) ≡ false → from_errno st ≢ fs_ok
  failure_not_ok st h = λ q. ground (arith, (to_errno-from_errno st).1 q)

  verdict-Judged :
      (w : World W) (committed : ℕ) (revoked : List ℕ) (op : WalOp)
      → Judged w committed revoked op (verdict api subscribers w committed revoked op)
  unfolding verdict
  verdict-Judged w committed revoked op = elim (Bool-cases (is_done committed op)) [
    | inl d ↦ rw d (leb→le _ _ d)
    | inr d ↦ elim (Bool-cases (is_fenced revoked op)) [
      | inl f ↦ rw (d, f) (ground (arith, d), λ q. cc)
      | inr f ↦
          rw (d, f)
            (judge (create_context op.caller)
              (apply_wal_op api subscribers w (create_context op.caller) op.body)
              (ground (arith, d)) f)
    ]
  ]
    where
      judge :
          (c : Caller) (r : World W × ℕ)
          → committed < op.seq
          → is_fenced revoked op ≡ false
          → Judged w committed revoked op (
              if r.1 == 0
              then applied r.0
              else (if idempotent_skip api subscribers r.0 c op.body r.1
                  then applied r.0
                  else stopped r.0 (from_errno r.1)))
      judge c (v, st) less free = elim (Bool-cases (st == 0)) [
        | inl y ↦ rw y (less, free)
        | inr n ↦ elim (Bool-cases (idempotent_skip api subscribers v c op.body st)) [
          | inl y ↦ rw (n, y) (less, free)
          | inr m ↦ rw (n, m) (less, failure_not_ok st n)
        ]
      ]

  -- The rounds of the loop, with what each verdict says of its operation.
  pub run_cases {ℓ} :
      (P : Progress W → Type ℓ) (w : World W) (committed : ℕ) (revoked : List ℕ) (op : WalOp)
      (ops : List WalOp)
      → (op.seq ≤ committed → P (run api subscribers w committed revoked ops))
      → ((v : World W) (e : FsError)
          → verdict api subscribers w committed revoked op ≡ stopped v e
          → (committed < op.seq) × (e ≢ fs_ok)
          → P (record { world = v; committed = committed; halt = failed_at op.seq e }))
      → ((v : World W)
          → verdict api subscribers w committed revoked op ≡ applied v
          → (committed < op.seq) × (is_fenced revoked op ≡ false)
          → P (run api subscribers v op.seq revoked ops))
      → P (run api subscribers w committed revoked (op ∷ ops))
  run_cases P w committed revoked op ops done stop step =
      go (verdict api subscribers w committed revoked op) refl
        (verdict-Judged w committed revoked op)
    where
      go :
          (x : Verdict W)
          → verdict api subscribers w committed revoked op ≡ x
          → Judged w committed revoked op x
          → P (run api subscribers w committed revoked (op ∷ ops))
      go covered e j = unfold run in rw (e, run) (done j)
      go (stopped v x) e j = unfold run in rw (e, run) (stop v x e j)
      go (applied v) e j = unfold run in rw (e, run) (step v e j)

  -- The watermark only rises.
  pub run_rises :
      (w : World W) (committed : ℕ) (revoked : List ℕ) (ops : List WalOp)
      → committed ≤ (run api subscribers w committed revoked ops).committed
  run_rises w committed revoked [] = unfold run in omega arith
  run_rises w committed revoked (op ∷ ops) =
      run_cases (λ p. committed ≤ p.committed) w committed revoked op ops
        (λ _. run_rises w committed revoked ops) (λ v e _ _. omega arith)
        (λ v _ j. omega (arith, j.0, run_rises v op.seq revoked ops))

  pub run_covers :
      (w : World W) (committed : ℕ) (revoked : List ℕ) (ops : List WalOp)
      → (run api subscribers w committed revoked ops).halt ≡ at_end
      → All (λ op. op.seq ≤ (run api subscribers w committed revoked ops).committed) ops
  run_covers w committed revoked [] = λ h. tt
  run_covers w committed revoked (op ∷ ops) =
      run_cases (λ p. p.halt ≡ at_end → All (λ x. x.seq ≤ p.committed) (op ∷ ops)) w committed
        revoked op ops
        (λ d h. (
          omega (arith, d, run_rises w committed revoked ops),
          run_covers w committed revoked ops h,
        ))
        (λ v e _ _ h. absurd (ground (arith, h)))
        (λ v _ j h. (run_rises v op.seq revoked ops, run_covers v op.seq revoked ops h))

  pub run_covered :
      (w : World W) (committed : ℕ) (revoked : List ℕ) (ops : List WalOp)
      → All (λ op. op.seq ≤ committed) ops
      → run api subscribers w committed revoked ops
        ≡ record { world = w; committed = committed; halt = at_end }
  run_covered w committed revoked [] h = unfold run in refl
  run_covered w committed revoked (op ∷ ops) h =
      run_cases (λ p. p ≡ record { world = w; committed = committed; halt = at_end }) w committed
        revoked op ops (λ _. run_covered w committed revoked ops h.1)
        (λ v e _ j. absurd (omega (arith, j.0, h.0))) (λ v _ j. absurd (omega (arith, j.0, h.0)))

  -- Where the loop halts, the failing operation lies above the watermark that is acked, and its
  -- error is no success.
  pub run_failed :
      (w : World W) (committed : ℕ) (revoked : List ℕ) (ops : List WalOp) (seq : ℕ) (e : FsError)
      → (run api subscribers w committed revoked ops).halt ≡ failed_at seq e
      → ((run api subscribers w committed revoked ops).committed < seq) × (e ≢ fs_ok)
  run_failed w committed revoked [] seq e = unfold run in λ h. absurd (ground (arith, h))
  run_failed w committed revoked (op ∷ ops) seq e =
      run_cases (λ p. p.halt ≡ failed_at seq e → (p.committed < seq) × (e ≢ fs_ok)) w committed
        revoked op ops (λ _. run_failed w committed revoked ops seq e)
        (λ v x _ j h. ground (arith, j.0, j.1, h)) (λ v _ j. run_failed v op.seq revoked ops seq e)

  fenced_stops :
      (w v : World W) (committed : ℕ) (revoked : List ℕ) (op : WalOp) (e : FsError)
      → is_fenced revoked op ≡ true
      → verdict api subscribers w committed revoked op ≡ stopped v e
      → v ≡ w
  unfolding verdict
  fenced_stops w v committed revoked op e f = elim (Bool-cases (is_done committed op)) [
    | inl d ↦ rw d (λ q. absurd (ground (arith, q)))
    | inr d ↦ rw (d, f) (λ q. ground (arith, q))
  ]

  -- Operations of revoked generations change nothing, and move no watermark.
  pub run_fenced :
      (w : World W) (committed : ℕ) (revoked : List ℕ) (ops : List WalOp)
      → All (λ op. is_fenced revoked op ≡ true) ops
      → ((run api subscribers w committed revoked ops).world ≡ w)
        × ((run api subscribers w committed revoked ops).committed ≡ committed)
  run_fenced w committed revoked [] h = unfold run in (refl, refl)
  run_fenced w committed revoked (op ∷ ops) h =
      run_cases (λ p. (p.world ≡ w) × (p.committed ≡ committed)) w committed revoked op ops
        (λ _. run_fenced w committed revoked ops h.1)
        (λ v e q j. (fenced_stops w v committed revoked op e h.0 q, refl))
        (λ v _ j. absurd (ground (arith, j.1, h.0)))
