-- ===== src/Client/Overlay/Content.antt =====
-- The bytes of a pending file, and reads of them: `grow`, `copy` and the loop of `ReadMerge` in
-- pkg/client/backend/wal/overlay.go.
use g_mountie.Prelude.{
  ℕ, zero, suc, ◌+◌, ◌-◌, ◌≤◌, ◌≡◌, refl, ap, ◌∙◌, ◌&&◌, List, [], ◌∷◌, ◌++◌, ltb, leb, length,
  take, drop, min, max, if◌then◌else◌, Bytes, arith, length-append,
}
use g_mountie.Client.Intervals.{ByteRange}

abbrev pub zeros : ℕ → Bytes
zeros zero = []
zeros (suc n) = 0 ∷ zeros n

-- The data grown with zeros to a length.
abbrev pub grow : Bytes → ℕ → Bytes
grow bytes n = if ltb (length bytes) n then bytes ++ zeros (n - length bytes) else bytes

-- copy(data[start:], bytes), inside the data
abbrev pub overwrite : Bytes → ℕ → Bytes → Bytes
overwrite bytes start new = take start bytes ++ (new ++ drop (start + length new) bytes)

-- The last end of the ranges and a bound, whichever is larger.
unfoldable pub max_end : ℕ → List ByteRange → ℕ
max_end n [] = n
max_end n (r ∷ l) = max_end (if ltb n r.end then r.end else n) l

-- One round of the loop: the part of a range that lies in the output is copied.
unfoldable pub paste : Bytes → ℕ → Bytes → ByteRange → Bytes
paste content off out r =
    let out_start = r.start - off in
    let out_end = min (r.end - off) (length out) in
    let source = r.start + (off - r.start) in
    if leb out_end out_start
    then out
    else overwrite out out_start (take (out_end - out_start) (drop source content))

unfoldable pub paste_all : Bytes → ℕ → Bytes → List ByteRange → Bytes
paste_all content off out [] = out
paste_all content off out (r ∷ l) = paste_all content off (paste content off out r) l

-- The bytes of a read at an offset, from what the server answered.
unfoldable pub merge_content : Bytes → List ByteRange → ℕ → Bytes → Bytes
unfolding max_end paste_all
merge_content content intervals off base =
    paste_all content off (grow base (max_end (off + length base) intervals - off)) intervals

-- The byte at a place, and 0 past the end.
pub byte_at : Bytes → ℕ → ℕ
byte_at [] i = 0
byte_at (b ∷ bytes) zero = b
byte_at (b ∷ bytes) (suc i) = byte_at bytes i

byte_at-append :
    (xs ys : Bytes) (i : ℕ)
    → byte_at (xs ++ ys) i
      ≡ (if ltb i (length xs) then byte_at xs i else byte_at ys (i - length xs))
unfolding byte_at
byte_at-append [] ys i = ground arith
byte_at-append (x ∷ xs) ys zero = ground arith
byte_at-append (x ∷ xs) ys (suc i) = ground (arith, byte_at-append xs ys i)

pub byte_at-take :
    (n : ℕ) (xs : Bytes) (i : ℕ) → byte_at (take n xs) i ≡ (if ltb i n then byte_at xs i else 0)
unfolding byte_at
byte_at-take zero xs i = ground arith
byte_at-take (suc n) [] i = ground arith
byte_at-take (suc n) (x ∷ xs) zero = ground arith
byte_at-take (suc n) (x ∷ xs) (suc i) = ground (arith, byte_at-take n xs i)

pub byte_at-drop : (n : ℕ) (xs : Bytes) (i : ℕ) → byte_at (drop n xs) i ≡ byte_at xs (n + i)
unfolding byte_at
byte_at-drop zero xs i = ap (λ k. byte_at xs k) (omega arith)
byte_at-drop (suc n) [] i = refl
byte_at-drop (suc n) (x ∷ xs) i = byte_at-drop n xs i ∙ ap (λ k. byte_at (x ∷ xs) k) next
  where
    next : suc (n + i) ≡ suc n + i
    next = omega arith

pub length-take : (n : ℕ) (xs : Bytes) → length (take n xs) ≡ min n (length xs)
length-take zero xs = omega arith
length-take (suc n) [] = omega arith
length-take (suc n) (x ∷ xs) = omega (arith, length-take n xs)

pub length-drop : (n : ℕ) (xs : Bytes) → length (drop n xs) ≡ length xs - n
length-drop zero xs = omega arith
length-drop (suc n) [] = omega arith
length-drop (suc n) (x ∷ xs) = omega (arith, length-drop n xs)

length-zeros : (n : ℕ) → length (zeros n) ≡ n
length-zeros zero = refl
length-zeros (suc n) = omega (arith, length-zeros n)

byte_at-zeros : (n i : ℕ) → byte_at (zeros n) i ≡ 0
unfolding byte_at
byte_at-zeros zero i = refl
byte_at-zeros (suc n) zero = refl
byte_at-zeros (suc n) (suc i) = byte_at-zeros n i

pub byte_at_past : (xs : Bytes) (i : ℕ) → length xs ≤ i → byte_at xs i ≡ 0
unfolding byte_at
byte_at_past [] i h = refl
byte_at_past (x ∷ xs) zero h = absurd (omega (arith, h))
byte_at_past (x ∷ xs) (suc i) h = byte_at_past xs i (omega (arith, h))

pub length-grow : (xs : Bytes) (n : ℕ) → length (grow xs n) ≡ max n (length xs)
length-grow xs n =
    ground (arith, length-append xs (zeros (n - length xs)), length-zeros (n - length xs))

pub byte_at-grow : (xs : Bytes) (n i : ℕ) → byte_at (grow xs n) i ≡ byte_at xs i
byte_at-grow xs n i = ground (
  arith,
  byte_at-append xs (zeros (n - length xs)) i,
  byte_at-zeros (n - length xs) (i - length xs),
  byte_at_past xs i,
)

pub length-overwrite :
    (xs : Bytes) (start : ℕ) (new : Bytes)
    → start + length new ≤ length xs
    → length (overwrite xs start new) ≡ length xs
length-overwrite xs start new h =
    length-append (take start xs) (new ++ drop (start + length new) xs)
    ∙ omega (
      arith,
      h,
      length-append new (drop (start + length new) xs),
      length-take start xs,
      length-drop (start + length new) xs,
    )

pub byte_at-overwrite :
    (xs : Bytes) (start : ℕ) (new : Bytes) (i : ℕ)
    → start + length new ≤ length xs
    → byte_at (overwrite xs start new) i ≡ (
        if leb start i && ltb i (start + length new) then byte_at new (i - start) else byte_at xs i)
byte_at-overwrite xs start new i h =
    byte_at-append (take start xs) (new ++ drop (start + length new) xs) i
    ∙ rw
        (
          length_head,
          byte_at-take start xs i,
          byte_at-append new (drop (start + length new) xs) (i - start),
          byte_at-drop (start + length new) xs (i - start - length new),
        )
        (ground (arith, ap (λ k. byte_at xs k)))
  where
    length_head : length (take start xs) ≡ start
    length_head = length-take start xs ∙ omega (arith, h)
