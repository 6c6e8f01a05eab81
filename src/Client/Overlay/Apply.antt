-- ===== src/Client/Overlay/Apply.antt =====
-- `Overlay.Apply`: what a recorded operation does to the pending state.
use g_mountie.Prelude.{
  ℕ, ◌+◌, ◌/◌, ◌%◌, ◌^◌, Bool, Option, none, some, List, [], ◌∷◌, ◌++◌, ◌==◌, ltb, length, take,
  drop, get, put, del, if◌then◌else◌, Bytes, Bytes-discrete,
}
use g_mountie.Client.Log.{
  Op, OpKind, op_write, op_create, op_set_attr, op_mkdir, op_rename, op_unlink, op_rmdir,
  op_symlink, op_set_xattr, op_remove_xattr,
}
use g_mountie.Client.Intervals.{add_interval, clamp_intervals}
use g_mountie.Client.Overlay.Content.{grow, overwrite}
use g_mountie.Client.Overlay.{
  Time, OverlayNode, Overlay, new_full_node, new_base_delta_node, tomb_node, touch_node, s_ifreg,
  s_ifdir, s_iflnk, type_bits, in_subtree,
}

abbrev pub set_node : Overlay → Bytes → OverlayNode → Overlay
set_node ov path n = record ov { nodes = put Bytes-discrete ov.nodes path n }

-- op.Mode & 0o7777, with a default for zero
abbrev pub permissions : ℕ → ℕ → ℕ
permissions mode default = if mode % 4096 == 0 then default else mode % 4096

unfoldable pub apply_create : Overlay → Op → Time → Overlay
unfolding put
apply_create ov op now =
    record (set_node ov op.path
      (new_full_node ov.next_ino (s_ifreg + permissions op.mode 420) now)) {
        next_ino = ov.next_ino + 1;
      }

unfoldable pub apply_mkdir : Overlay → Op → Time → Overlay
unfolding put
apply_mkdir ov op now =
    record (set_node ov op.path
      (new_full_node ov.next_ino (s_ifdir + permissions op.mode 493) now)) {
        next_ino = ov.next_ino + 1;
      }

unfoldable pub apply_symlink : Overlay → Op → Time → Overlay
unfolding put
apply_symlink ov op now =
    record (set_node ov op.path
      (record (new_full_node ov.next_ino (s_iflnk + 511) now) { target = op.content })) {
        next_ino = ov.next_ino + 1;
      }

-- The node of a path that an operation changes, made anew as a base delta where there is none or a
-- tombstone; and the overlay's next inode number.
abbrev pub node_or_delta : Overlay → Time → Option OverlayNode → OverlayNode × ℕ
node_or_delta ov now none = (new_base_delta_node ov.next_ino now, ov.next_ino + 1)
node_or_delta ov now (some n) =
    if n.tomb then (new_base_delta_node ov.next_ino now, ov.next_ino + 1) else (n, ov.next_ino)

abbrev pub update : Overlay → Bytes → Time → (OverlayNode → OverlayNode) → Overlay
update ov path now change =
    let (n, next) = node_or_delta ov now (get Bytes-discrete ov.nodes path) in
    record (set_node ov path (change n)) { next_ino = next }

unfoldable pub write_node : OverlayNode → ℕ → Bytes → Time → OverlayNode
unfolding add_interval
write_node n start new now =
    let stop = start + length new in
    touch_node
      (record n {
        content = overwrite (grow n.content stop) start new;
        intervals = add_interval (record { start = start; end = stop }) n.intervals;
      })
      now

unfoldable pub apply_write : Overlay → Op → Time → Overlay
unfolding get put write_node
apply_write ov op now = update ov op.path now (λ n. write_node n op.offset op.content now)

unfoldable pub apply_delete : Overlay → Op → Time → Overlay
unfolding put
apply_delete ov op now = set_node ov op.path (tomb_node now)

-- The pending paths that a rename moves, with where they go.
abbrev pub moves : Bytes → Bytes → List (Bytes × OverlayNode) → List (Bytes × Bytes)
moves old new [] = []
moves old new ((p, n) ∷ nodes) =
    let rest = moves old new nodes in
    if in_subtree old p then (p, new ++ drop (length old) p) ∷ rest else rest

abbrev pub touched_unless_tomb : OverlayNode → Time → OverlayNode
touched_unless_tomb n now = if n.tomb then n else touch_node n now

abbrev pub move_node :
    List (Bytes × OverlayNode)
    → Bytes
    → Bytes
    → Time
    → Option OverlayNode
    → List (Bytes × OverlayNode)
move_node nodes old new now none = nodes
move_node nodes old new now (some n) =
    put Bytes-discrete (put Bytes-discrete nodes new (touched_unless_tomb n now)) old
      (tomb_node now)

unfoldable pub move_all :
    List (Bytes × OverlayNode) → List (Bytes × Bytes) → Time → List (Bytes × OverlayNode)
unfolding get put
move_all nodes [] now = nodes
move_all nodes ((old, new) ∷ l) now =
    move_all (move_node nodes old new now (get Bytes-discrete nodes old)) l now

abbrev pub tomb_if_absent :
    List (Bytes × OverlayNode) → Bytes → Time → Option OverlayNode → List (Bytes × OverlayNode)
tomb_if_absent nodes path now none = put Bytes-discrete nodes path (tomb_node now)
tomb_if_absent nodes path now (some n) = nodes

unfoldable pub apply_rename : Overlay → Op → Time → Overlay
unfolding move_all get put
apply_rename ov op now =
    let moved = move_all ov.nodes (moves op.path op.new_path ov.nodes) now in
    record ov { nodes = tomb_if_absent moved op.path now (get Bytes-discrete moved op.path) }

-- FATTR_* of the backend.
abbrev pub has_bit : ℕ → ℕ → Bool
has_bit valid bit = valid / bit % 2 == 1

-- valid |= bit
abbrev pub or_bit : ℕ → ℕ → ℕ
or_bit valid bit = if has_bit valid bit then valid else valid + bit

abbrev pub change_if : Bool → (OverlayNode → OverlayNode) → OverlayNode → OverlayNode
change_if b f n = if b then f n else n

abbrev pub resize : OverlayNode → ℕ → OverlayNode
resize n size = record n {
  content = if ltb (length n.content) size then grow n.content size else take size n.content;
  intervals = clamp_intervals size n.intervals;
  valid = or_bit n.valid 8;
}

unfoldable pub set_attr_node : OverlayNode → Op → Time → OverlayNode
unfolding clamp_intervals
set_attr_node n op now =
    let moded =
      change_if (has_bit op.valid 1)
        (λ m. record m { mode = type_bits m.mode + op.mode % 4096; valid = or_bit m.valid 1 }) n in
    let owned =
      change_if (has_bit op.valid 2) (λ m. record m { uid = op.uid; valid = or_bit m.valid 2 })
        moded in
    let grouped =
      change_if (has_bit op.valid 4) (λ m. record m { gid = op.gid; valid = or_bit m.valid 4 })
        owned in
    let sized = change_if (has_bit op.valid 8) (λ m. resize m op.size) grouped in
    let accessed =
      change_if (has_bit op.valid 16)
        (λ m. record m {
          atime = (op.atime_sec, op.atime_nsec);
          atime_nsec = op.atime_nsec;
          valid = or_bit m.valid 16;
        })
        sized in
    let modified =
      change_if (has_bit op.valid 32)
        (λ m. record m {
          mtime = (op.mtime_sec, op.mtime_nsec);
          mtime_nsec = op.mtime_nsec;
          valid = or_bit m.valid 32;
        })
        accessed in
    record modified { ctime = now; version = (modified.version + 1) % 2 ^ 64 }

unfoldable pub apply_set_attr : Overlay → Op → Time → Overlay
unfolding get put set_attr_node
apply_set_attr ov op now = update ov op.path now (λ n. set_attr_node n op now)

unfoldable pub apply_set_xattr : Overlay → Op → Time → Overlay
unfolding get put del
apply_set_xattr ov op now = update ov op.path now (λ n.
    touch_node
      (record n {
        xattr_removed = del Bytes-discrete n.xattr_removed op.xattr_name;
        xattrs = put Bytes-discrete n.xattrs op.xattr_name op.xattr_value;
      })
      now)

unfoldable pub apply_remove_xattr : Overlay → Op → Time → Overlay
unfolding get put del
apply_remove_xattr ov op now = update ov op.path now (λ n.
    touch_node
      (record n {
        xattrs = del Bytes-discrete n.xattrs op.xattr_name;
        xattr_removed = put Bytes-discrete n.xattr_removed op.xattr_name tt;
      })
      now)

-- `applyLocked`
unfoldable pub apply_kind : OpKind → Overlay → Op → Time → Overlay
apply_kind op_create ov op now = apply_create ov op now
apply_kind op_mkdir ov op now = apply_mkdir ov op now
apply_kind op_write ov op now = apply_write ov op now
apply_kind op_unlink ov op now = apply_delete ov op now
apply_kind op_rmdir ov op now = apply_delete ov op now
apply_kind op_rename ov op now = apply_rename ov op now
apply_kind op_set_attr ov op now = apply_set_attr ov op now
apply_kind op_symlink ov op now = apply_symlink ov op now
apply_kind op_set_xattr ov op now = apply_set_xattr ov op now
apply_kind op_remove_xattr ov op now = apply_remove_xattr ov op now

abbrev pub apply_op : Overlay → Op → Time → Overlay
apply_op ov op now = apply_kind op.kind ov op now

-- `Reset`: what the surviving operations make of an empty overlay.
unfoldable pub replay_onto : Overlay → List Op → Time → Overlay
replay_onto ov [] now = ov
replay_onto ov (op ∷ ops) now = replay_onto (apply_op ov op now) ops now

unfoldable pub reset : List Op → Time → Overlay
unfolding replay_onto
reset ops now = replay_onto (record { nodes = []; next_ino = 1 }) ops now
