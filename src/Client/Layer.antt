-- ===== src/Client/Layer.antt =====
-- `Layer` of pkg/client/backend/wal/layer.go: a client's reads of delegated paths with their pending
-- state, and its mutations, which are deferred or forwarded. What the inner backend answers is an
-- argument of each read; its attributes, bytes and listings are those of the layers below.
pub mod Deferral
pub mod Merging
mod Tests
use g_mountie.Prelude.{
  ℕ, ◌+◌, ◌/◌, ◌%◌, Bool, true, false, ◌&&◌, not, Option, none, some, List, [], ◌∷◌, ◌++◌, ltb,
  length, take, get, if◌then◌else◌, Bytes, Bytes-discrete,
}
use g_mountie.Paths.{slash, is_empty}
use g_mountie.Fserr.{FsError, enoent, eno_xattr}
use g_mountie.Client.Overlay.{
  OverlayNode, Overlay, NodeAttr, Pending, unknown_path, tombstoned, present, stat, XattrState,
  xattr_set, xattr_gone, xattr_unknown, xattr, type_bits, owns_full,
}
use g_mountie.Client.Overlay.Apply.{has_bit}
use g_mountie.Client.Overlay.Merge.{read_merge}
use g_mountie.Client.Overlay.Listing.{DirEntryPlus, list_merge}
use g_mountie.Client.Manager.{Manager, is_delegated}

pub data Answer (A : Type 0) : Type 0 where
  failed : FsError → Answer A
  answered : A → Answer A

abbrev pub join_path : Bytes → Bytes → Bytes
join_path parent name = if is_empty parent then name else parent ++ (slash ∷ name)

abbrev pub some_node : Option OverlayNode → Bool
some_node none = false
some_node (some n) = true

unfoldable pub has : Overlay → Bytes → Bool
has ov path = some_node (get Bytes-discrete ov.nodes path)

abbrev pub blocks_of : ℕ → ℕ
blocks_of size = (size + 511) / 512

-- The base's attributes with those that are pending.
unfoldable pub merge_attr : NodeAttr → NodeAttr → ℕ → NodeAttr
merge_attr base attr valid =
    let resized = if has_bit valid 8 then true else ltb base.size attr.size in
    record base {
      mode = if has_bit valid 1 then type_bits base.mode + attr.mode % 4096 else base.mode;
      uid = if has_bit valid 2 then attr.uid else base.uid;
      gid = if has_bit valid 4 then attr.gid else base.gid;
      size = if resized then attr.size else base.size;
      blocks = if resized then blocks_of attr.size else base.blocks;
      atime = if has_bit valid 16 then attr.atime else base.atime;
      atime_nsec = if has_bit valid 16 then attr.atime_nsec else base.atime_nsec;
      mtime = if has_bit valid 32 then attr.mtime else base.mtime;
      mtime_nsec = if has_bit valid 32 then attr.mtime_nsec else base.mtime_nsec;
      ctime = attr.ctime;
      version = attr.version;
    }

abbrev pub over_base : NodeAttr → ℕ → Answer NodeAttr → Answer NodeAttr
over_base attr valid (failed e) = answered attr
over_base attr valid (answered base) = answered (merge_attr base attr valid)

-- `mergedStat`, with the inner `Stat`.
unfoldable pub merged_stat : Pending → Answer NodeAttr → Answer NodeAttr
merged_stat unknown_path inner = inner
merged_stat tombstoned inner = failed enoent
merged_stat (present attr base_delta valid) inner =
    if not base_delta then answered attr else over_base attr valid inner

abbrev pub is_merged : Manager → Overlay → Bytes → Bool
is_merged m ov path = is_delegated m path && has ov path

-- `Stat`
unfoldable pub layer_stat : Manager → Overlay → Bytes → Answer NodeAttr → Answer NodeAttr
layer_stat m ov path inner = if is_merged m ov path then merged_stat (stat ov path) inner else inner

-- `Lookup`; the inner backend answers `Stat` of the path, or `Lookup` of the name.
unfoldable pub layer_lookup :
    Manager → Overlay → Bytes → Bytes → Answer NodeAttr → Answer NodeAttr → Answer NodeAttr
layer_lookup m ov parent name inner_stat inner_lookup =
    let path = join_path parent name in
    if is_merged m ov path then merged_stat (stat ov path) inner_stat else inner_lookup

abbrev pub not_unchanged : Answer NodeAttr → Answer (NodeAttr × Bool)
not_unchanged (failed e) = failed e
not_unchanged (answered attr) = answered (attr, false)

-- `GetAttrIfChanged`
unfoldable pub get_attr_if_changed :
    Manager
    → Overlay
    → Bytes
    → Answer NodeAttr
    → Answer (NodeAttr × Bool)
    → Answer (NodeAttr × Bool)
get_attr_if_changed m ov path inner_stat inner =
    if is_merged m ov path then not_unchanged (merged_stat (stat ov path) inner_stat) else inner

abbrev pub is_enoent : FsError → Bool
is_enoent enoent = true
is_enoent _ = false

abbrev pub listed : Overlay → Bytes → Answer (List DirEntryPlus) → Answer (List DirEntryPlus)
listed ov path (failed e) = if is_enoent e then answered (list_merge ov path []) else failed e
listed ov path (answered base) = answered (list_merge ov path base)

-- `ListDir`
unfoldable pub layer_list_dir :
    Manager → Overlay → Bytes → Answer (List DirEntryPlus) → Answer (List DirEntryPlus)
layer_list_dir m ov path inner = if is_delegated m path then listed ov path inner else inner

-- The pending bytes over those that the inner backend read, cut to the room of the caller.
abbrev pub merged_bytes : Overlay → Bytes → ℕ → ℕ → Answer Bytes → Answer Bytes
merged_bytes ov path off room (failed e) =
    if is_enoent e then answered (take room (read_merge ov path off [])) else failed e
merged_bytes ov path off room (answered base) = answered (take room (read_merge ov path off base))

abbrev pub is_full_node : Pending → Bool
is_full_node unknown_path = false
is_full_node tombstoned = false
is_full_node (present attr base_delta valid) = not base_delta

-- `Open`: whether the file is served from the overlay alone, by a synthetic handle.
unfoldable pub opens_synthetic : Manager → Overlay → Bytes → Bool
opens_synthetic m ov path = is_delegated m path && is_full_node (stat ov path)

-- `Read` of a synthetic handle. The inner backend opens the path and reads where the overlay no
-- longer owns the file.
unfoldable pub read_synthetic :
    Overlay → Bytes → ℕ → ℕ → Option FsError → Answer Bytes → Answer Bytes
read_synthetic ov path off room none inner =
    if is_full_node (stat ov path)
    then answered (take room (read_merge ov path off []))
    else merged_bytes ov path off room inner
read_synthetic ov path off room (some e) inner =
    if is_full_node (stat ov path)
    then answered (take room (read_merge ov path off []))
    else failed e

-- `Read` of any other handle.
unfoldable pub layer_read : Manager → Overlay → Bytes → ℕ → ℕ → Answer Bytes → Answer Bytes
layer_read m ov path off room inner =
    if is_merged m ov path then merged_bytes ov path off room inner else inner

abbrev pub pending_xattr : XattrState → Answer Bytes → Answer Bytes
pending_xattr (xattr_set v) inner = answered v
pending_xattr xattr_gone inner = failed eno_xattr
pending_xattr xattr_unknown inner = inner

-- `GetXAttr`
unfoldable pub layer_get_xattr : Manager → Overlay → Bytes → Bytes → Answer Bytes → Answer Bytes
layer_get_xattr m ov path name inner =
    if is_merged m ov path then pending_xattr (xattr ov path name) inner else inner
