-- ===== src/Client/Overlay/Truncation.antt =====
-- A deferred truncation, and the bytes that a read then shows.
use g_mountie.Prelude.{
  ℕ, ◌+◌, ◌%◌, ◌≤◌, ◌≡◌, refl, ◌∙◌, ap, Bool, true, false, ◌||◌, some, List, [], ◌∷◌, length, All,
  get, Bytes, Bytes-discrete, arith, Bool-cases, inl, inr, get-put_self,
}
use g_mountie.Client.Log.{Op}
use g_mountie.Client.Intervals.{ByteRange, clamp_intervals}
use g_mountie.Client.Intervals.Coverage.{covered, covered-clamp_intervals}
use g_mountie.Client.Overlay.{Time, OverlayNode, Overlay, type_bits}
use g_mountie.Client.Overlay.Content.{byte_at, length-grow, length-take}
use g_mountie.Client.Overlay.Apply.{
  or_bit, node_or_delta, change_if, has_bit, resize, set_attr_node, apply_set_attr,
}
use g_mountie.Client.Overlay.Merge.{
  read_merge, merge_node, no_ranges, Within, byte_at-merge_content,
}

-- The file's pending bytes and ranges, which only the size bit changes.
abbrev SameFile : OverlayNode → OverlayNode → Type 0
SameFile m n = (m.content ≡ n.content) × (m.intervals ≡ n.intervals) × (m.tomb ≡ n.tomb)

change_if-SameFile :
    (b : Bool) (f : OverlayNode → OverlayNode) (n : OverlayNode)
    → SameFile (f n) n
    → SameFile (change_if b f n) n
change_if-SameFile true f n h = h
change_if-SameFile false f n h = (refl, refl, refl)

SameFile-trans : (a b c : OverlayNode) → SameFile a b → SameFile b c → SameFile a c
SameFile-trans a b c h k = (h.0 ∙ k.0, h.1 ∙ k.1, h.2 ∙ k.2)

resize-SameFile :
    (m n : OverlayNode) (size : ℕ) → SameFile m n → SameFile (resize m size) (resize n size)
resize-SameFile m n size h = rw (h.0, h.1, h.2) (refl, refl, refl)

set_attr_node_sized :
    (n : OverlayNode) (op : Op) (now : Time)
    → has_bit op.valid 8 ≡ true
    → SameFile (set_attr_node n op now) (resize n op.size)
unfolding set_attr_node
set_attr_node_sized n op now h =
    let f0 : OverlayNode → OverlayNode =
      λ m. record m { mode = type_bits m.mode + op.mode % 4096; valid = or_bit m.valid 1 } in
    let f1 : OverlayNode → OverlayNode = λ m. record m { uid = op.uid; valid = or_bit m.valid 2 } in
    let f2 : OverlayNode → OverlayNode = λ m. record m { gid = op.gid; valid = or_bit m.valid 4 } in
    let f4 : OverlayNode → OverlayNode = λ m. record m {
      atime = (op.atime_sec, op.atime_nsec);
      atime_nsec = op.atime_nsec;
      valid = or_bit m.valid 16;
    } in
    let f5 : OverlayNode → OverlayNode = λ m. record m {
      mtime = (op.mtime_sec, op.mtime_nsec);
      mtime_nsec = op.mtime_nsec;
      valid = or_bit m.valid 32;
    } in
    let m0 = change_if (has_bit op.valid 1) f0 n in
    let m1 = change_if (has_bit op.valid 2) f1 m0 in
    let m2 = change_if (has_bit op.valid 4) f2 m1 in
    let m3 = resize m2 op.size in
    let m4 = change_if (has_bit op.valid 16) f4 m3 in
    let m5 = change_if (has_bit op.valid 32) f5 m4 in
    let s0 = change_if-SameFile (has_bit op.valid 1) f0 n (refl, refl, refl) in
    let s1 = change_if-SameFile (has_bit op.valid 2) f1 m0 (refl, refl, refl) in
    let s2 = change_if-SameFile (has_bit op.valid 4) f2 m1 (refl, refl, refl) in
    let s4 = change_if-SameFile (has_bit op.valid 16) f4 m3 (refl, refl, refl) in
    let s5 = change_if-SameFile (has_bit op.valid 32) f5 m4 (refl, refl, refl) in
    let early = SameFile-trans m2 m0 n (SameFile-trans m2 m1 m0 s2 s1) s0 in
    let late = SameFile-trans m4 m3 (resize n op.size) s4 (resize-SameFile m2 n op.size early) in
    rw (h, set_attr_node) (SameFile-trans m5 m4 (resize n op.size) s5 late)

clamp_intervals-Ends :
    (size : ℕ) (l : List ByteRange) → All (λ r. r.end ≤ size) (clamp_intervals size l)
unfolding clamp_intervals
clamp_intervals-Ends size [] = tt
clamp_intervals-Ends size (r ∷ l) = ground (arith, clamp_intervals-Ends size l)

length-resize : (n : OverlayNode) (size : ℕ) → length (resize n size).content ≡ size
length-resize n size = ground (arith, length-grow n.content size, length-take size n.content)

-- What a read merges from a file that is cut, past the cut.
resized_past :
    (n : OverlayNode) (size off : ℕ) (base : Bytes) (i : ℕ)
    → size ≤ off + i
    → byte_at (merge_node off base (some (resize n size))) i ≡ byte_at base i
resized_past n size off base i past =
    let ranges = clamp_intervals size n.intervals in
    let inside : Within (resize n size).content ranges =
      rw (length-resize n size) (clamp_intervals-Ends size n.intervals) in
    let out : covered (off + i) ranges ≡ false =
      covered-clamp_intervals (off + i) size n.intervals ∙ ground (arith, past) in
    elim (Bool-cases (n.tomb || no_ranges ranges)) [
      | inl y ↦ rw y refl
      | inr m ↦
          rw m
            (byte_at-merge_content (resize n size).content ranges off base i inside ∙ rw out refl)
    ]

merge_node-SameFile :
    (m n : OverlayNode) (off : ℕ) (base : Bytes)
    → SameFile m n
    → merge_node off base (some m) ≡ merge_node off base (some n)
merge_node-SameFile m n off base h = rw (h.0, h.1, h.2) refl

-- After a deferred setattr of a path that sets its size, a read at or past the new size has the bytes
-- that the inner backend answered: pending bytes past the cut are gone, those of the server are not
-- hidden.
pub read_merge-apply_set_attr :
    (ov : Overlay) (op : Op) (now : Time) (off : ℕ) (base : Bytes) (i : ℕ)
    → has_bit op.valid 8 ≡ true
    → op.size ≤ off + i
    → byte_at (read_merge (apply_set_attr ov op now) op.path off base) i ≡ byte_at base i
unfolding read_merge apply_set_attr
read_merge-apply_set_attr ov op now off base i h past =
    let d = (node_or_delta ov now (get Bytes-discrete ov.nodes op.path)).0 in
    rw (get-put_self Bytes-discrete ov.nodes op.path (set_attr_node d op now)) (
      ap (λ b. byte_at b i)
        (merge_node-SameFile (set_attr_node d op now) (resize d op.size) off base
          (set_attr_node_sized d op now h))
      ∙ resized_past d op.size off base i past)
