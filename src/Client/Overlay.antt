-- ===== src/Client/Overlay.antt =====
-- `Overlay` of pkg/client/backend/wal/overlay.go: the pending state of a delegation, by path, with
-- tombstones for what is deleted. Each method holds the mutex, so it is one step. The time of a
-- change is an argument; the version counter wraps at 64 bits.
pub mod Content
pub mod Apply
pub mod Merge
pub mod Writes
pub mod Refines
pub mod Truncation
pub mod Listing
use g_mountie.Prelude.{
  ℕ, ◌+◌, ◌-◌, ◌*◌, ◌/◌, ◌%◌, ◌^◌, Bool, true, false, ◌&&◌, ◌||◌, not, Option, none, some, List, [],
  ◌∷◌, ◌++◌, ◌==◌, ltb, length, any, keep_if, get, if◌then◌else◌, Bytes, Bytes-discrete, same,
}
use g_mountie.Paths.{slash, has_prefix, is_empty}
use g_mountie.Client.Intervals.{ByteRange}

-- A time as seconds and nanoseconds.
abbrev pub Time : Type 0
Time = ℕ × ℕ

pub record OverlayNode : Type 0 where
  pub ino : ℕ
  pub mode : ℕ  -- with the type bits
  pub uid : ℕ
  pub gid : ℕ
  pub atime : Time
  pub mtime : Time
  pub ctime : Time
  pub atime_nsec : ℕ
  pub mtime_nsec : ℕ
  pub version : ℕ
  pub content : Bytes  -- data
  pub intervals : List ByteRange
  pub target : Bytes
  pub xattrs : List (Bytes × Bytes)
  pub xattr_removed : List (Bytes × Unit {0})
  pub tomb : Bool
  pub base_delta : Bool
  pub valid : ℕ

pub record Overlay : Type 0 where
  pub nodes : List (Bytes × OverlayNode)
  pub next_ino : ℕ

abbrev pub new_overlay : Overlay
new_overlay = record { nodes = []; next_ino = 1 }

abbrev pub s_ifreg : ℕ
s_ifreg = 32768

abbrev pub s_ifdir : ℕ
s_ifdir = 16384

abbrev pub s_iflnk : ℕ
s_iflnk = 40960

-- mode & S_IFMT
abbrev pub type_bits : ℕ → ℕ
type_bits mode = mode / 4096 % 16 * 4096

-- The zero value of the struct.
abbrev pub zero_node : OverlayNode
zero_node = record {
  ino = 0;
  mode = 0;
  uid = 0;
  gid = 0;
  atime = (0, 0);
  mtime = (0, 0);
  ctime = (0, 0);
  atime_nsec = 0;
  mtime_nsec = 0;
  version = 0;
  content = [];
  intervals = [];
  target = [];
  xattrs = [];
  xattr_removed = [];
  tomb = false;
  base_delta = false;
  valid = 0;
}

abbrev pub new_full_node : ℕ → ℕ → Time → OverlayNode
new_full_node ino mode now = record zero_node {
  ino = ino;
  mode = mode;
  atime = now;
  mtime = now;
  ctime = now;
}

abbrev pub new_base_delta_node : ℕ → Time → OverlayNode
new_base_delta_node ino now = record zero_node { ino = ino; ctime = now; base_delta = true }

abbrev pub tomb_node : Time → OverlayNode
tomb_node now = record zero_node { tomb = true; ctime = now }

abbrev pub touch_node : OverlayNode → Time → OverlayNode
touch_node n now = record n { mtime = now; ctime = now; version = (n.version + 1) % 2 ^ 64 }

-- The end of the last range.
unfoldable pub last_end : List ByteRange → ℕ
last_end [] = 0
last_end (r ∷ []) = r.end
last_end (_ ∷ r ∷ l) = last_end (r ∷ l)

unfoldable pub node_size : OverlayNode → ℕ
unfolding last_end
node_size n =
    if type_bits n.mode == s_iflnk
    then length n.target
    else (if type_bits n.mode == s_ifdir
        then 4096
        else (if ltb (length n.content) (last_end n.intervals)
            then last_end n.intervals
            else length n.content))

-- backend.Attr
pub record NodeAttr : Type 0 where
  pub ino : ℕ
  pub size : ℕ
  pub blocks : ℕ
  pub atime : ℕ
  pub atime_nsec : ℕ
  pub mtime : ℕ
  pub mtime_nsec : ℕ
  pub ctime : ℕ
  pub mode : ℕ
  pub nlink : ℕ
  pub uid : ℕ
  pub gid : ℕ
  pub blksize : ℕ
  pub version : ℕ

unfoldable pub node_attr : OverlayNode → NodeAttr
unfolding node_size
node_attr n = record {
  ino = n.ino;
  size = node_size n;
  blocks = (node_size n + 511) / 512;
  atime = n.atime.0;
  atime_nsec = n.atime_nsec;
  mtime = n.mtime.0;
  mtime_nsec = n.mtime_nsec;
  ctime = n.ctime.0;
  mode = n.mode;
  nlink = 1;
  uid = n.uid;
  gid = n.gid;
  blksize = 4096;
  version = n.version;
}

-- What `Stat` answers: nothing pending, a tombstone, or the attributes with the mask.
pub data Pending : Type 0 where
  unknown_path : Pending
  tombstoned : Pending
  present : NodeAttr → Bool → ℕ → Pending  -- whether a base delta, and its FATTR_* mask

abbrev pub stat_of : Option OverlayNode → Pending
stat_of none = unknown_path
stat_of (some n) = if n.tomb then tombstoned else present (node_attr n) n.base_delta n.valid

unfoldable pub stat : Overlay → Bytes → Pending
unfolding get
stat ov path = stat_of (get Bytes-discrete ov.nodes path)

pub data XattrState : Type 0 where
  xattr_set : Bytes → XattrState
  xattr_gone xattr_unknown : XattrState

abbrev pub removed_or_unknown : Option (Unit {0}) → XattrState
removed_or_unknown none = xattr_unknown
removed_or_unknown (some _) = xattr_gone

abbrev pub set_or : XattrState → Option Bytes → XattrState
set_or s none = s
set_or s (some v) = xattr_set v

abbrev pub xattr_of : Bytes → Option OverlayNode → XattrState
xattr_of name none = xattr_unknown
xattr_of name (some n) =
    if n.tomb
    then xattr_unknown
    else set_or (removed_or_unknown (get Bytes-discrete n.xattr_removed name))
        (get Bytes-discrete n.xattrs name)

unfoldable pub xattr : Overlay → Bytes → Bytes → XattrState
unfolding get
xattr ov path name = xattr_of name (get Bytes-discrete ov.nodes path)

abbrev pub is_full : Option OverlayNode → Bool
is_full none = false
is_full (some n) = not n.tomb && not n.base_delta

unfoldable pub owns_full : Overlay → Bytes → Bool
unfolding get
owns_full ov path = is_full (get Bytes-discrete ov.nodes path)

-- The path is the root or lies under it.
abbrev pub in_subtree : Bytes → Bytes → Bool
in_subtree root p = same p root || has_prefix p (root ++ slash ∷ [])

unfoldable pub has_subtree : Overlay → Bytes → Bool
has_subtree ov root = any (λ e. in_subtree root e.0) ov.nodes

unfoldable pub drop_subtree : Overlay → Bytes → Overlay
drop_subtree ov root =
    if is_empty root
    then record ov { nodes = [] }
    else record ov { nodes = keep_if (λ e. not (in_subtree root e.0)) ov.nodes }
