-- ===== src/Client/Flush/Chunks.antt =====
-- The batches of a flush are all that is pending, in order, and each is within its bounds.
use g_mountie.Prelude.{
  ℕ, zero, suc, ◌+◌, ◌≤◌, ◌<◌, ◌≡◌, refl, ap, ◌∙◌, List, [], ◌∷◌, ◌++◌, lt→ltb, length, max, All,
  arith,
}
use g_mountie.Client.Log.{Op}
use g_mountie.Client.Flush.{fill, chunks}

abbrev pub joined : List (List Op) → List Op
joined [] = []
joined (l ∷ ls) = l ++ joined ls

fill-append :
    (max_ops max_bytes ops bytes : ℕ) (l : List Op)
    → let (batch, rest) = fill max_ops max_bytes ops bytes l in batch ++ rest ≡ l
unfolding fill
fill-append max_ops max_bytes ops bytes [] = refl
fill-append max_ops max_bytes ops bytes (op ∷ l) =
    ground (arith, fill-append max_ops max_bytes (ops + 1) (bytes + length op.content) l)

fill-length :
    (max_ops max_bytes ops bytes : ℕ) (l : List Op)
    → let (batch, rest) = fill max_ops max_bytes ops bytes l in
      (length rest ≤ length l) × (length batch + ops ≤ max max_ops ops)
unfolding fill
fill-length max_ops max_bytes ops bytes [] = (omega arith, omega arith)
fill-length max_ops max_bytes ops bytes (op ∷ l) =
    ground (arith, fill-length max_ops max_bytes (ops + 1) (bytes + length op.content) l)

-- Where both bounds are positive, the batches of a flush are all that is pending, in order, and
-- none is empty or has more operations than the bound; as much fuel as there are operations is
-- enough.
pub chunks-joined :
    (n max_ops max_bytes : ℕ) (ops : List Op)
    → length ops ≤ n
    → 0 < max_ops
    → 0 < max_bytes
    → (joined (chunks n max_ops max_bytes ops) ≡ ops)
      × All
          (λ batch. (0 < length batch) × (length batch ≤ max_ops))
          (chunks n max_ops max_bytes ops)
unfolding chunks
chunks-joined zero max_ops max_bytes [] h p q = (refl, tt)
chunks-joined zero max_ops max_bytes (op ∷ ops) h p q = absurd (omega (arith, h))
chunks-joined (suc n) max_ops max_bytes [] h p q = (refl, tt)
chunks-joined (suc n) max_ops max_bytes (op ∷ ops) h p q =
    let size = length op.content in
    let (less, bounded) = fill-length max_ops max_bytes (0 + 1) (0 + size) ops in
    let rest = (fill max_ops max_bytes (0 + 1) (0 + size) ops).1 in
    let (all, bounds) = chunks-joined n max_ops max_bytes rest (omega (arith, h, less)) p q in
    unfold fill in
    rw (lt→ltb 0 max_ops p, lt→ltb 0 max_bytes q)
      (
        ap (λ l. op ∷ l)
            (ap (λ l. (fill max_ops max_bytes (0 + 1) (0 + size) ops).0 ++ l) all
              ∙ fill-append max_ops max_bytes (0 + 1) (0 + size) ops),
        ((omega arith, omega (arith, bounded, p)), bounds),
      )
