-- ===== src/Client/Overlay/Writes.antt =====
-- A client reads its own pending writes.
use g_mountie.Prelude.{
  ℕ, ◌+◌, ◌-◌, ◌≤◌, ◌≡◌, refl, sym, ◌∙◌, true, false, ◌&&◌, Option, none, some, List, [], ◌∷◌, ltb,
  leb, length, max, All, get, if◌then◌else◌, Bytes, Bytes-discrete, arith, Bool-cases, inl, inr,
  get-put_self,
}
use g_mountie.Client.Log.{Op}
use g_mountie.Client.Intervals.{ByteRange, merge_after, touches, join, add_interval}
use g_mountie.Client.Intervals.Coverage.{covered, Apart, covered-add_interval, add_interval-Apart}
use g_mountie.Client.Overlay.{Time, OverlayNode, Overlay, new_base_delta_node}
use g_mountie.Client.Overlay.Content.{
  grow, overwrite, merge_content, byte_at, length-grow, byte_at-grow, length-overwrite,
  byte_at-overwrite,
}
use g_mountie.Client.Overlay.Apply.{node_or_delta, write_node, apply_write}
use g_mountie.Client.Overlay.Merge.{
  read_merge, no_ranges, merge_node, Within, byte_at-merge_content,
}

abbrev Ends : ℕ → List ByteRange → Type 0
Ends m l = All (λ r. r.end ≤ m) l

merge_after-Ends :
    (m : ℕ) (r : ByteRange) (l : List ByteRange) → r.end ≤ m → Ends m l → Ends m (merge_after r l)
unfolding merge_after
merge_after-Ends m r [] p h = (p, tt)
merge_after-Ends m r (s ∷ l) p h = elim (Bool-cases (leb s.start r.end)) [
  | inl y ↦
      rw y (merge_after-Ends m (record r { end = max r.end s.end }) l (omega (arith, p, h.0)) h.1)
  | inr n ↦ rw n (p, merge_after-Ends m s l h.0 h.1)
]

add_interval-Ends :
    (m : ℕ) (new : ByteRange) (l : List ByteRange)
    → new.end ≤ m
    → Ends m l
    → Ends m (add_interval new l)
unfolding add_interval
add_interval-Ends m new [] p h = (p, tt)
add_interval-Ends m new (r ∷ l) p h = elim (Bool-cases (touches new r)) [
  | inl t ↦ rw t (add_interval-Ends m (join new r) l (omega (arith, p, h.0)) h.1)
  | inr t ↦
      rw t (ground (arith, merge_after-Ends m r l h.0 h.1, add_interval-Ends m new l p h.1, h.0))
]

Ends-le : (m n : ℕ) (l : List ByteRange) → m ≤ n → Ends m l → Ends n l
Ends-le m n [] p h = tt
Ends-le m n (r ∷ l) p h = (omega (arith, p, h.0), Ends-le m n l p h.1)

-- A pending file in good order: its ranges are sorted and apart, and end within its data.
abbrev pub NodeGood : OverlayNode → Type 0
NodeGood n = Apart n.intervals × Within n.content n.intervals

length-written :
    (c : Bytes) (start : ℕ) (new : Bytes)
    → length (overwrite (grow c (start + length new)) start new)
      ≡ max (start + length new) (length c)
length-written c start new =
    length-overwrite (grow c (start + length new)) start new
      (omega (arith, length-grow c (start + length new)))
    ∙ length-grow c (start + length new)

-- Each write keeps a pending file in good order.
pub write_node-NodeGood :
    (n : OverlayNode) (start : ℕ) (new : Bytes) (now : Time)
    → NodeGood n
    → NodeGood (write_node n start new now)
unfolding write_node
write_node-NodeGood n start new now h = (
  add_interval-Apart (record { start = start; end = start + length new }) n.intervals (omega arith)
      h.0,
  add_interval-Ends (length (overwrite (grow n.content (start + length new)) start new))
      (record { start = start; end = start + length new }) n.intervals
      (omega (arith, length-written n.content start new))
      (Ends-le (length n.content)
        (length (overwrite (grow n.content (start + length new)) start new)) n.intervals
        (omega (arith, length-written n.content start new)) h.1),
)

read_written :
    (n : OverlayNode) (start : ℕ) (new : Bytes) (now : Time) (off : ℕ) (base : Bytes) (i : ℕ)
    → NodeGood n
    → let m = write_node n start new now in
      byte_at (merge_content m.content m.intervals off base) i ≡ (
        if leb start (off + i) && ltb (off + i) (start + length new)
        then byte_at new (off + i - start)
        else (if covered (off + i) n.intervals
            then byte_at n.content (off + i)
            else byte_at base i))
read_written n start new now off base i h =
    let m = write_node n start new now in
    byte_at-merge_content m.content m.intervals off base i (write_node-NodeGood n start new now h).1
    ∙ unfold write_node in
      rw
        (
          covered-add_interval (off + i) (record { start = start; end = start + length new })
              n.intervals (omega arith) h.0,
          byte_at-overwrite (grow n.content (start + length new)) start new (off + i)
              (omega (arith, length-grow n.content (start + length new))),
          byte_at-grow n.content (start + length new) (off + i),
        )
        (ground arith)

-- The pending file of a path, if it has one, is in good order.
abbrev pub GoodAt : Option OverlayNode → Type 0
GoodAt none = Unit
GoodAt (some n) = NodeGood n

no_ranges-covered : (p : ℕ) (l : List ByteRange) → no_ranges l ≡ true → covered p l ≡ false
no_ranges-covered p [] h = refl
no_ranges-covered p (r ∷ l) h = absurd (ground (arith, h))

byte_at-merge_node :
    (m : OverlayNode) (off : ℕ) (base : Bytes) (i : ℕ)
    → NodeGood m
    → m.tomb ≡ false
    → byte_at (merge_node off base (some m)) i
      ≡ (if covered (off + i) m.intervals then byte_at m.content (off + i) else byte_at base i)
byte_at-merge_node m off base i h t = elim (Bool-cases (no_ranges m.intervals)) [
  | inl y ↦ rw (t, y, no_ranges-covered (off + i) m.intervals y) refl
  | inr n ↦ rw (t, n) (byte_at-merge_content m.content m.intervals off base i h.1)
]

read_written_node :
    (n : OverlayNode) (op : Op) (now : Time) (off : ℕ) (base : Bytes) (i : ℕ)
    → NodeGood n
    → n.tomb ≡ false
    → byte_at (merge_node off base (some (write_node n op.offset op.content now))) i ≡ (
        if leb op.offset (off + i) && ltb (off + i) (op.offset + length op.content)
        then byte_at op.content (off + i - op.offset)
        else byte_at (merge_node off base (some n)) i)
read_written_node n op now off base i h t =
    let m = write_node n op.offset op.content now in
    let good = write_node-NodeGood n op.offset op.content now h in
    byte_at-merge_node m off base i good (unfold write_node in t)
    ∙ sym (byte_at-merge_content m.content m.intervals off base i good.1)
    ∙ read_written n op.offset op.content now off base i h
    ∙ rw (byte_at-merge_node n off base i h t) refl

-- After a write to a path, a read of the path has the written bytes in the written range, and
-- elsewhere the bytes that it had before, where the pending file of the path, if there is one,
-- has sorted ranges within its data.
pub read_merge-apply_write :
    (ov : Overlay) (op : Op) (now : Time) (off : ℕ) (base : Bytes) (i : ℕ)
    → GoodAt (get Bytes-discrete ov.nodes op.path)
    → byte_at (read_merge (apply_write ov op now) op.path off base) i ≡ (
        if leb op.offset (off + i) && ltb (off + i) (op.offset + length op.content)
        then byte_at op.content (off + i - op.offset)
        else byte_at (read_merge ov op.path off base) i)
read_merge-apply_write ov op now off base i h = go (get Bytes-discrete ov.nodes op.path) refl h
  where
    found :
        (o : Option OverlayNode)
        → get Bytes-discrete ov.nodes op.path ≡ o
        → get Bytes-discrete (apply_write ov op now).nodes op.path
          ≡ some (write_node (node_or_delta ov now o).0 op.offset op.content now)
    found o e =
        unfold apply_write in
        rw e (
          get-put_self Bytes-discrete ov.nodes op.path
            (write_node (node_or_delta ov now o).0 op.offset op.content now))

    go :
        (o : Option OverlayNode)
        → get Bytes-discrete ov.nodes op.path ≡ o
        → GoodAt o
        → byte_at (read_merge (apply_write ov op now) op.path off base) i ≡ (
            if leb op.offset (off + i) && ltb (off + i) (op.offset + length op.content)
            then byte_at op.content (off + i - op.offset)
            else byte_at (read_merge ov op.path off base) i)
    go none e g =
        unfold read_merge in
        rw (found none e, e)
          (read_written_node (new_base_delta_node ov.next_ino now) op now off base i (tt, tt) refl)
    go (some n) e g = elim (Bool-cases n.tomb) [
      | inl y ↦
          unfold read_merge in
          rw (found (some n) e, e, y)
            (read_written_node (new_base_delta_node ov.next_ino now) op now off base i (tt, tt)
              refl)
      | inr z ↦
          let kept : (node_or_delta ov now (some n)).0 ≡ n = rw z refl in
          unfold read_merge in
          rw (found (some n) e, e, kept) (read_written_node n op now off base i g z)
    ]
