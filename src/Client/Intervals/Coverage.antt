-- ===== src/Client/Intervals/Coverage.antt =====
-- Which bytes the ranges cover, and that they stay sorted and apart.
use g_mountie.Prelude.{
  ℕ, ◌≤◌, ◌<◌, ◌≡◌, refl, Bool, ◌&&◌, ◌||◌, List, [], ◌∷◌, ltb, leb, any, arith, inl, inr,
  Bool-cases,
}
use g_mountie.Client.Intervals.{
  ByteRange, merge_after, touches, join, add_interval, clamp_intervals,
}

abbrev pub in_range : ℕ → ByteRange → Bool
in_range p r = leb r.start p && ltb p r.end

-- Is the byte pending?
abbrev pub covered : ℕ → List ByteRange → Bool
covered p l = any (λ r. in_range p r) l

-- The ranges begin after a bound, in order, with a gap between any two.
abbrev pub Above : ℕ → List ByteRange → Type 0
Above lo [] = Unit
Above lo (r ∷ l) = (lo < r.start) × (r.start ≤ r.end) × Above r.end l

abbrev pub Apart : List ByteRange → Type 0
Apart [] = Unit
Apart (r ∷ l) = (r.start ≤ r.end) × Above r.end l

-- Ranges above a bound are apart.
Above-Apart : (lo : ℕ) (l : List ByteRange) → Above lo l → Apart l
Above-Apart lo [] a = tt
Above-Apart lo (r ∷ l) a = (a.1, a.2)

merge_after-Above : (r : ByteRange) (l : List ByteRange) → Above r.end l → merge_after r l ≡ r ∷ l
unfolding merge_after
merge_after-Above r [] h = refl
merge_after-Above r (s ∷ l) h = ground (arith, merge_after-Above s l h.2)

add_interval-Above :
    (lo : ℕ) (new : ByteRange) (l : List ByteRange)
    → lo < new.start
    → new.start ≤ new.end
    → Above lo l
    → Above lo (add_interval new l)
unfolding add_interval
add_interval-Above lo new [] p q h = ground arith
add_interval-Above lo new (r ∷ l) p q h = elim (Bool-cases (touches new r)) [
  | inl t ↦ rw t (add_interval-Above lo (join new r) l (ground arith) (ground arith) (weaken l h.2))
  | inr t ↦ rw t (ground (arith, merge_after-Above r l h.2, add_interval-Above r.end new l))
]
  where
    weaken : (m : List ByteRange) → Above r.end m → Above lo m
    weaken [] a = tt
    weaken (s ∷ m) a = (ground (arith, h), a.1, a.2)

-- Ranges that are sorted, with a gap between any two, stay so when one is added: what touches is
-- joined.
pub add_interval-Apart :
    (new : ByteRange) (l : List ByteRange)
    → new.start ≤ new.end
    → Apart l
    → Apart (add_interval new l)
unfolding add_interval
add_interval-Apart new [] q h = ground arith
add_interval-Apart new (r ∷ l) q h = elim (Bool-cases (touches new r)) [
  | inl t ↦ rw t (add_interval-Apart (join new r) l (ground arith) (Above-Apart r.end l h.1))
  | inr t ↦ rw t (ground (arith, merge_after-Above r l h.1, add_interval-Above r.end new l))
]

-- A byte is pending after a write if it was before or lies in the written range, where the ranges
-- were sorted and apart.
pub covered-add_interval :
    (p : ℕ) (new : ByteRange) (l : List ByteRange)
    → new.start ≤ new.end
    → Apart l
    → covered p (add_interval new l) ≡ (in_range p new || covered p l)
unfolding add_interval
covered-add_interval p new [] q h = ground arith
covered-add_interval p new (r ∷ l) q h = elim (Bool-cases (touches new r)) [
  | inl t ↦ rw t (ground (arith, covered-add_interval p (join new r) l, Above-Apart r.end l h.1))
  | inr t ↦ rw t (
      ground
        (arith, merge_after-Above r l h.1, covered-add_interval p new l q, Above-Apart r.end l h.1))
]

-- A truncation leaves exactly the pending bytes below the new size.
pub covered-clamp_intervals :
    (p n : ℕ) (l : List ByteRange) → covered p (clamp_intervals n l) ≡ (ltb p n && covered p l)
unfolding clamp_intervals
covered-clamp_intervals p n [] = ground arith
covered-clamp_intervals p n (r ∷ l) = ground (arith, covered-clamp_intervals p n l)
