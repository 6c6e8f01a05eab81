-- ===== src/Client/Overlay/Refines.antt =====
-- The overlay of a whole log against the bytes of a file.
use g_mountie.Prelude.{
  ℕ, ◌+◌, ◌-◌, ◌≡◌, ◌≢◌, ◌⊎◌, inl, inr, refl, ◌∙◌, ap, false, ◌&&◌, Option, none, some, List, [],
  ◌∷◌, ltb, leb, length, All, get, if◌then◌else◌, Bytes, Bytes-discrete, arith, Bool-cases, same,
  same_refl, get-put_self, get-put_ne, subst,
}
use g_mountie.Client.Log.{
  Op, OpKind, op_write, op_create, op_set_attr, op_mkdir, op_rename, op_unlink, op_rmdir,
  op_symlink, op_set_xattr, op_remove_xattr,
}
use g_mountie.Client.Overlay.{Time, OverlayNode, Overlay, new_overlay}
use g_mountie.Client.Overlay.Content.{byte_at}
use g_mountie.Client.Overlay.Apply.{
  node_or_delta, write_node, apply_create, apply_mkdir, apply_symlink, apply_write, apply_delete,
  apply_set_attr, apply_set_xattr, apply_remove_xattr, apply_kind, apply_op, replay_onto, reset,
}
use g_mountie.Client.Overlay.Merge.{read_merge}
use g_mountie.Client.Overlay.Writes.{NodeGood, write_node-NodeGood, GoodAt, read_merge-apply_write}

-- What the writes of a log make of the byte at a place of a file.
abbrev pub written : Bytes → ℕ → List Op → ℕ → ℕ
written path p [] byte = byte
written path p (op ∷ ops) byte = written path p ops (
    if same op.path path && (leb op.offset p && ltb p (op.offset + length op.content))
    then byte_at op.content (p - op.offset)
    else byte)

-- A write, or an operation on another path that is no rename.
abbrev pub WritesOrElsewhere : Bytes → Op → Type 0
WritesOrElsewhere path op = (op.kind ≡ op_write) ⊎ ((op.path ≢ path) × (op.kind ≢ op_rename))

-- An operation on another path, other than a rename, does not touch the pending file.
elsewhere :
    (kind : OpKind) (ov : Overlay) (op : Op) (now : Time) (path : Bytes)
    → op.path ≢ path
    → kind ≢ op_rename
    → get Bytes-discrete (apply_kind kind ov op now).nodes path ≡ get Bytes-discrete ov.nodes path
unfolding apply_kind apply_create apply_mkdir apply_symlink apply_write apply_delete apply_set_attr
    apply_set_xattr apply_remove_xattr
elsewhere op_create ov op now path d r = get-put_ne Bytes-discrete ov.nodes op.path path _ d
elsewhere op_mkdir ov op now path d r = get-put_ne Bytes-discrete ov.nodes op.path path _ d
elsewhere op_symlink ov op now path d r = get-put_ne Bytes-discrete ov.nodes op.path path _ d
elsewhere op_write ov op now path d r = get-put_ne Bytes-discrete ov.nodes op.path path _ d
elsewhere op_unlink ov op now path d r = get-put_ne Bytes-discrete ov.nodes op.path path _ d
elsewhere op_rmdir ov op now path d r = get-put_ne Bytes-discrete ov.nodes op.path path _ d
elsewhere op_set_attr ov op now path d r = get-put_ne Bytes-discrete ov.nodes op.path path _ d
elsewhere op_set_xattr ov op now path d r = get-put_ne Bytes-discrete ov.nodes op.path path _ d
elsewhere op_remove_xattr ov op now path d r = get-put_ne Bytes-discrete ov.nodes op.path path _ d
elsewhere op_rename ov op now path d r = absurd (r refl)

GoodAt-write :
    (ov : Overlay) (op : Op) (now : Time)
    → GoodAt (get Bytes-discrete ov.nodes op.path)
    → GoodAt (get Bytes-discrete (apply_write ov op now).nodes op.path)
unfolding apply_write
GoodAt-write ov op now g =
    let n = (node_or_delta ov now (get Bytes-discrete ov.nodes op.path)).0 in
    rw (get-put_self Bytes-discrete ov.nodes op.path (write_node n op.offset op.content now)) (
      write_node-NodeGood n op.offset op.content now
        (good_or_delta (get Bytes-discrete ov.nodes op.path) g))
  where
    good_or_delta : (o : Option OverlayNode) → GoodAt o → NodeGood (node_or_delta ov now o).0
    good_or_delta none g = (tt, tt)
    good_or_delta (some n) g = elim (Bool-cases n.tomb) [ inl y ↦ rw y (tt, tt) | inr z ↦ rw z g ]

-- One operation, on the pending file and on the byte.
abbrev Steps : Overlay → Op → Time → Bytes → ℕ → Bytes → ℕ → Type 0
Steps ov op now path off base i =
    GoodAt (get Bytes-discrete (apply_op ov op now).nodes path)
    × (byte_at (read_merge (apply_op ov op now) path off base) i
        ≡ written path (off + i) (op ∷ []) (byte_at (read_merge ov path off base) i))

apply_kind_write :
    (kind : OpKind) (ov : Overlay) (op : Op) (now : Time)
    → kind ≡ op_write
    → apply_kind kind ov op now ≡ apply_write ov op now
unfolding apply_kind
apply_kind_write kind ov op now e = rw e refl

own_write :
    (ov : Overlay) (op : Op) (now : Time) (off : ℕ) (base : Bytes) (i : ℕ)
    → GoodAt (get Bytes-discrete ov.nodes op.path)
    → op.kind ≡ op_write
    → Steps ov op now op.path off base i
own_write ov op now off base i g k =
    let read = read_merge-apply_write ov op now off base i g in
    rw (apply_kind_write op.kind ov op now k, same_refl op.path) (GoodAt-write ov op now g, read)

other_path :
    (ov : Overlay) (op : Op) (now : Time) (path : Bytes) (off : ℕ) (base : Bytes) (i : ℕ)
    → GoodAt (get Bytes-discrete ov.nodes path)
    → op.path ≢ path
    → op.kind ≢ op_rename
    → Steps ov op now path off base i
unfolding read_merge
other_path ov op now path off base i g d r =
    let kept = elsewhere op.kind ov op now path d r in
    let apart : same op.path path ≡ false = ground (arith, d) in
    rw (kept, apart, read_merge) (g, refl)

not_rename : (path : Bytes) (op : Op) → WritesOrElsewhere path op → op.kind ≢ op_rename
not_rename path op (inl k) e = ground (arith, k, e)
not_rename path op (inr (d, r)) e = r e

step_refines :
    (ov : Overlay) (op : Op) (now : Time) (path : Bytes) (off : ℕ) (base : Bytes) (i : ℕ)
    → GoodAt (get Bytes-discrete ov.nodes path)
    → WritesOrElsewhere path op
    → Steps ov op now path off base i
step_refines ov op now path off base i g w = elim (Bytes-discrete op.path path) [
  | yes q ↦
      subst (λ p. GoodAt (get Bytes-discrete ov.nodes p) → Steps ov op now p off base i) q
        (λ h. own_write ov op now off base i h (elim w [ inl k ↦ k | inr (d, r) ↦ absurd (d q) ])) g
  | no d ↦ other_path ov op now path off base i g d (not_rename path op w)
]

replay_refines :
    (ops : List Op) (ov : Overlay) (now : Time) (path : Bytes) (off : ℕ) (base : Bytes) (i : ℕ)
    → GoodAt (get Bytes-discrete ov.nodes path)
    → All (WritesOrElsewhere path) ops
    → byte_at (read_merge (replay_onto ov ops now) path off base) i
      ≡ written path (off + i) ops (byte_at (read_merge ov path off base) i)
unfolding replay_onto
replay_refines [] ov now path off base i g w = refl
replay_refines (op ∷ ops) ov now path off base i g w =
    let one = step_refines ov op now path off base i g w.0 in
    replay_refines ops (apply_op ov op now) now path off base i one.0 w.1
    ∙ ap (λ b. written path (off + i) ops b) one.1

-- Where each operation of a log is a write, or is on another path and is no rename: a read of the
-- path through the overlay that the log makes is, byte for byte, what its writes in order make of
-- the server's bytes, at every offset and past the end of what the server answered.
pub reset_refines :
    (ops : List Op) (now : Time) (path : Bytes) (off : ℕ) (base : Bytes) (i : ℕ)
    → All (WritesOrElsewhere path) ops
    → byte_at (read_merge (reset ops now) path off base) i
      ≡ written path (off + i) ops (byte_at base i)
unfolding reset read_merge get
reset_refines ops now path off base i w = replay_refines ops new_overlay now path off base i tt w
