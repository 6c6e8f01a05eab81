-- ===== src/Client/Layer/Tests.antt =====
-- Runs of the client's reads and deferrals, and the theorems at them.
use g_mountie.Prelude.{
  ℕ, ◌≡◌, inl, inr, refl, arith, true, false, none, List, [], ◌∷◌, All, get, Bytes, Bytes-discrete,
  Unique, ℕ_discrete,
}
use g_mountie.Client.Log.{Op, OpKind, op_write, op_set_attr, op_unlink}
use g_mountie.Client.Overlay.{Overlay, new_overlay, new_full_node, tomb_node}
use g_mountie.Client.Overlay.Content.{byte_at}
use g_mountie.Client.Overlay.Apply.{apply_set_attr, reset}
use g_mountie.Client.Overlay.Merge.{read_merge}
use g_mountie.Client.Overlay.Refines.{written, WritesOrElsewhere}
use g_mountie.Client.Overlay.Truncation.{read_merge-apply_set_attr}
use g_mountie.Client.Overlay.Listing.{DirEntryPlus, join_path2, list_merge, times, owed}
use g_mountie.Client.Overlay.Listing.Children.{times-list_merge}
use g_mountie.Client.Flush.{Coordinator}
use g_mountie.Client.Manager.{
  Manager, new_manager, is_delegated, is_draining, is_write_delegated, covering_grant, gen_for,
  record_op,
}
use g_mountie.Paths.{contains}
use g_mountie.Client.Layer.{answered, layer_read}
use g_mountie.Client.Layer.Merging.{bytes_of, layer_read_refines}
use g_mountie.Client.Layer.Deferral.{
  Attempt, SomeReleased, defer_or_forward, record_deferred, forwarded, forwarded-SomeReleased,
}

abbrev a : Bytes
a = 97 ∷ []

abbrev b : Bytes
b = 98 ∷ []

abbrev op : OpKind → Bytes → ℕ → Bytes → Op
op kind path offset content = record {
  seq = 1;
  gen = 1;
  kind = kind;
  path = path;
  new_path = [];
  offset = offset;
  content = content;
  mode = 420;
  flags = 0;
  valid = 8;
  uid = 0;
  gid = 0;
  size = 2;
  atime_sec = 0;
  atime_nsec = 0;
  mtime_sec = 0;
  mtime_nsec = 0;
  xattr_name = [];
  xattr_value = [];
  xattr_flags = 0;
}

-- Two writes that overlap, and a deletion elsewhere.
abbrev ops : List Op
ops = op op_write a 1 (1 ∷ 2 ∷ []) ∷ op op_unlink b 0 [] ∷ op op_write a 2 (3 ∷ 4 ∷ []) ∷ []

ops-WritesOrElsewhere : All (WritesOrElsewhere a) ops
ops-WritesOrElsewhere =
    (inl refl, (inr (λ e. ground (arith, e), λ e. ground (arith, e)), (inl refl, tt)))

abbrev served : Bytes
served = 9 ∷ 9 ∷ []

abbrev holder : Manager
holder = record {
  grants = (a, record { granted_root = a; excluded_paths = []; gen = 1 }) ∷ [];
  draining = [];
}

holder_delegated : is_delegated holder a ≡ true
unfolding is_delegated covering_grant contains Bytes-discrete ℕ_discrete
holder_delegated = refl

layer_read_refines_example :
    byte_at (bytes_of (layer_read holder (reset ops (0, 0)) a 1 4 (answered served))) 1
    ≡ written a 2 ops (byte_at served 1)
layer_read_refines_example =
    layer_read_refines holder ops (0, 0) a 1 4 served 1 ops-WritesOrElsewhere holder_delegated
      (omega arith) (omega arith)

read_merge-apply_set_attr_example :
    byte_at (read_merge (apply_set_attr new_overlay (op op_set_attr a 0 []) (0, 0)) a 1 served) 1
    ≡ byte_at served 1
read_merge-apply_set_attr_example =
    read_merge-apply_set_attr new_overlay (op op_set_attr a 0 []) (0, 0) 1 served 1 refl
      (omega arith)

abbrev listing : List DirEntryPlus
listing =
    record { ino = 5; mode = 33188; name = a; attr = none; xattr_names = []; xattr_listed = false }
    ∷ []

-- "a" is deleted, and so is "a/b"; "b" is made.
abbrev changed : Overlay
changed = record {
  nodes =
      (a, tomb_node (0, 0))
      ∷ (97 ∷ 47 ∷ b, tomb_node (0, 0))
      ∷ (b, new_full_node 1 33188 (0, 0))
      ∷ [];
  next_ino = 2;
}

changed-Unique : Unique Bytes-discrete changed.nodes
unfolding get Bytes-discrete ℕ_discrete
changed-Unique = (refl, (refl, (refl, tt)))

times-list_merge_example :
    times b (list_merge changed [] listing)
    ≡ owed (get Bytes-discrete changed.nodes (join_path2 [] b)) (times b listing)
times-list_merge_example =
    times-list_merge changed [] listing b refl (refl, (refl, (refl, tt))) changed-Unique

abbrev idle : Coordinator
idle = record {
  log = record { entries = []; hi_seq = none; epoch = [] };
  overlay = new_overlay;
  watermark = 0;
  max_apply_ops = 8;
  max_apply_bytes = 8;
}

-- A recall is in flight at the first attempt, and over at the second.
abbrev handed_over : List Attempt
handed_over =
    record {
      manager = record holder { draining = (a, 1) ∷ [] };
      coordinator = idle;
      commits = true;
      snapshot = record holder { draining = (a, 1) ∷ [] };
      live = true;
    }
    ∷ record {
      manager = new_manager;
      coordinator = idle;
      commits = true;
      snapshot = new_manager;
      live = true;
    }
    ∷ []

handed_over-forwarded : defer_or_forward (op op_write a 0 b) (0, 0) handed_over ≡ forwarded
unfolding defer_or_forward record_deferred record_op is_write_delegated is_draining is_delegated
    covering_grant contains Bytes-discrete ℕ_discrete gen_for
handed_over-forwarded = refl

forwarded-SomeReleased_example : SomeReleased (op op_write a 0 b) handed_over
forwarded-SomeReleased_example =
    forwarded-SomeReleased (op op_write a 0 b) (0, 0) handed_over handed_over-forwarded
