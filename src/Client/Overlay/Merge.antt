-- ===== src/Client/Overlay/Merge.antt =====
-- `ReadMerge` of the overlay: pending bytes over those of the server, and a client's reads of its
-- own writes.
use g_mountie.Prelude.{
  ℕ, ◌+◌, ◌-◌, ◌≤◌, ◌<◌, ◌≡◌, refl, ap, ◌∙◌, Bool, true, false, ◌&&◌, ◌||◌, Option, none, some,
  List, [], ◌∷◌, ltb, leb, length, take, drop, min, All, get, if◌then◌else◌, Bytes, Bytes-discrete,
  arith, Bool-cases, inl, inr,
}
use g_mountie.Client.Intervals.{ByteRange}
use g_mountie.Client.Intervals.Coverage.{in_range, covered}
use g_mountie.Client.Overlay.{OverlayNode, Overlay}
use g_mountie.Client.Overlay.Content.{
  grow, max_end, paste, paste_all, merge_content, byte_at, byte_at-take, byte_at-drop, length-take,
  length-drop, length-grow, byte_at-grow, length-overwrite, byte_at-overwrite,
}

abbrev pub no_ranges : List ByteRange → Bool
no_ranges [] = true
no_ranges (_ ∷ _) = false

abbrev pub merge_node : ℕ → Bytes → Option OverlayNode → Bytes
merge_node off base none = base
merge_node off base (some n) =
    if n.tomb || no_ranges n.intervals then base else merge_content n.content n.intervals off base

-- `ReadMerge`
unfoldable pub read_merge : Overlay → Bytes → ℕ → Bytes → Bytes
unfolding get merge_content
read_merge ov path off base = merge_node off base (get Bytes-discrete ov.nodes path)

-- Every range ends within the data.
abbrev pub Within : Bytes → List ByteRange → Type 0
Within content l = All (λ r. r.end ≤ length content) l

slice-length :
    (content : Bytes) (k n : ℕ) → k + n ≤ length content → length (take n (drop k content)) ≡ n
slice-length content k n h = omega (arith, h, length-take n (drop k content), length-drop k content)

slice-byte_at :
    (content : Bytes) (k n i : ℕ)
    → byte_at (take n (drop k content)) i ≡ (if ltb i n then byte_at content (k + i) else 0)
slice-byte_at content k n i = rw (byte_at-take n (drop k content) i, byte_at-drop k content i) refl

-- The part of a range that is copied lies in the data and in the output.
slice-fits :
    (content : Bytes) (off size : ℕ) (r : ByteRange)
    → r.end ≤ length content
    → leb (min (r.end - off) size) (r.start - off) ≡ false
    → let n = min (r.end - off) size - (r.start - off) in
      ((r.start + (off - r.start)) + n ≤ length content) × ((r.start - off) + n ≤ size)
slice-fits content off size r h q = (ground (arith, h, q), ground (arith, h, q))

length-paste :
    (content : Bytes) (off : ℕ) (out : Bytes) (r : ByteRange)
    → r.end ≤ length content
    → length (paste content off out r) ≡ length out
unfolding paste
length-paste content off out r h =
    let out_start = r.start - off in
    let n = min (r.end - off) (length out) - out_start in
    let source = r.start + (off - r.start) in
    elim (Bool-cases (leb (min (r.end - off) (length out)) out_start)) [
      | inl y ↦ rw y refl
      | inr q ↦
          let (inside, fits) = slice-fits content off (length out) r h q in
          rw q (
            length-overwrite out out_start (take n (drop source content))
              (omega (arith, fits, slice-length content source n inside)))
    ]

byte_at-paste :
    (content : Bytes) (off : ℕ) (out : Bytes) (r : ByteRange) (i : ℕ)
    → r.end ≤ length content
    → byte_at (paste content off out r) i ≡ (
        if in_range (off + i) r && ltb i (length out)
        then byte_at content (off + i)
        else byte_at out i)
unfolding paste
byte_at-paste content off out r i h =
    let out_start = r.start - off in
    let n = min (r.end - off) (length out) - out_start in
    let source = r.start + (off - r.start) in
    elim (Bool-cases (leb (min (r.end - off) (length out)) out_start)) [
      | inl y ↦ rw y (ground (arith, y))
      | inr q ↦
          let (inside, fits) = slice-fits content off (length out) r h q in
          let size = slice-length content source n inside in
          rw q (
            byte_at-overwrite out out_start (take n (drop source content)) i
              (omega (arith, fits, size))
            ∙ rw (size, slice-byte_at content source n (i - out_start))
                (ground (arith, q, ap (λ k. byte_at content k))))
    ]

byte_at-paste_all :
    (content : Bytes) (off : ℕ) (out : Bytes) (l : List ByteRange) (i : ℕ)
    → Within content l
    → byte_at (paste_all content off out l) i ≡ (
        if covered (off + i) l && ltb i (length out)
        then byte_at content (off + i)
        else byte_at out i)
unfolding paste_all
byte_at-paste_all content off out [] i h = refl
byte_at-paste_all content off out (r ∷ l) i h =
    byte_at-paste_all content off (paste content off out r) l i h.1
    ∙ rw (length-paste content off out r h.0, byte_at-paste content off out r i h.0) (ground arith)

covered-max_end :
    (p n : ℕ) (l : List ByteRange) → (n ≤ max_end n l) × (covered p l ≡ true → p < max_end n l)
unfolding max_end
covered-max_end p n [] = (omega arith, λ q. ground (arith, q))
covered-max_end p n (r ∷ l) = (
  ground (arith, covered-max_end p (if ltb n r.end then r.end else n) l),
  λ q. ground (arith, q, covered-max_end p (if ltb n r.end then r.end else n) l),
)

-- Byte for byte, a merged read has the pending bytes where there are any, and else what the
-- server answered, where the ranges end within the data; also past the end of what the server
-- answered.
pub byte_at-merge_content :
    (content : Bytes) (l : List ByteRange) (off : ℕ) (base : Bytes) (i : ℕ)
    → Within content l
    → byte_at (merge_content content l off base) i
      ≡ (if covered (off + i) l then byte_at content (off + i) else byte_at base i)
unfolding merge_content
byte_at-merge_content content l off base i h =
    let size = max_end (off + length base) l - off in
    byte_at-paste_all content off (grow base size) l i h
    ∙ rw (length-grow base size, byte_at-grow base size i)
        (ground (arith, covered-max_end (off + i) (off + length base) l))
