-- ===== src/Client/Coalesce/Order.antt =====
-- The batches of a coalescer, followed by what it still holds, are the writes in their order.
use g_mountie.Prelude.{
  ℕ, suc, ◌+◌, ◌≡◌, refl, ap, ◌∙◌, false, Option, none, some, List, [], ◌∷◌, ◌++◌, ◌==◌, length,
  if◌then◌else◌, arith, inl, inr, Bool-cases, Bytes,
}
use g_mountie.Client.Coalesce.{CoalescedWrite, WriteCoalescer, append_write, drain}

-- A write as its bytes with their offsets.
pub placed : ℕ → Bytes → List (ℕ × ℕ)
placed off [] = []
placed off (b ∷ bytes) = (off, b) ∷ placed (suc off) bytes

abbrev pub placed_batch : Option CoalescedWrite → List (ℕ × ℕ)
placed_batch none = []
placed_batch (some w) = placed w.offset w.content

abbrev pub pending : WriteCoalescer → List (ℕ × ℕ)
pending c = if c.has_data then placed c.start_off c.buf else []

-- An empty coalescer holds no bytes.
abbrev pub Clean : WriteCoalescer → Type 0
Clean c = c.has_data ≡ false → c.buf ≡ []

pub placed-append :
    (off : ℕ) (xs ys : Bytes) → placed off (xs ++ ys) ≡ placed off xs ++ placed (off + length xs) ys
unfolding placed
placed-append off [] ys = ap (λ n. placed n ys) (omega arith)
placed-append off (x ∷ xs) ys =
    ap (λ l. (off, x) ∷ l)
      (placed-append (suc off) xs ys ∙ ap (λ n. placed (suc off) xs ++ placed n ys) (omega arith))

nil_append : (l : List (ℕ × ℕ)) → l ++ [] ≡ l
nil_append [] = refl
nil_append (x ∷ l) = ap (λ m. x ∷ m) (nil_append l)

-- An append to a coalescer that holds no bytes while it is empty loses no byte and swaps none:
-- the batch to send, followed by what is then held, is what was held followed by the write.
pub append_write-placed :
    (c : WriteCoalescer) (bytes : Bytes) (off : ℕ)
    → Clean c
    → let (d, out) = append_write c bytes off in
      (placed_batch out ++ pending d ≡ pending c ++ placed off bytes) × Clean d
unfolding append_write
append_write-placed c bytes off h = elim (Bool-cases c.has_data) [
  | inr n ↦ ground (arith, n, h n, nil_append (placed off bytes))
  | inl y ↦ elim (Bool-cases (off == c.start_off + length c.buf)) [
    | inr n ↦ ground (arith, y, n)
    | inl e ↦ ground (
      arith,
      y,
      e,
      placed-append c.start_off c.buf bytes,
      nil_append (placed c.start_off (c.buf ++ bytes)),
    )
  ]
]

-- After a drain nothing is held, and the batch is all that was.
pub drain-placed :
    (c : WriteCoalescer)
    → let (d, out) = drain c in (placed_batch out ≡ pending c) × (pending d ≡ [])
unfolding drain
drain-placed c = ground arith
