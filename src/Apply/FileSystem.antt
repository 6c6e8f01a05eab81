-- ===== src/Apply/FileSystem.antt =====
-- The filesystem that the handlers call (`pathfs.FileSystem` and `nodefs.File` of go-fuse) as an
-- interface: its state is a type of its own, each call returns the new state and a status, and
-- status 0 is `fuse.OK`. A call is made in the name of a caller.
use g_mountie.Prelude.{ℕ, ◌+◌, ◌*◌, ◌%◌, ◌^◌, Option, none, some, Bytes, ◌==◌, if◌then◌else◌}

-- The fields of fuse.Attr that the handlers read.
pub record Attr : Type 0 where
  pub mode : ℕ
  pub uid : ℕ
  pub gid : ℕ
  pub size : ℕ
  pub mtime : ℕ
  pub mtimensec : ℕ
  pub ctime : ℕ
  pub ctimensec : ℕ

-- The version token of pkg/server/io/version.go; uint64 arithmetic wraps.
unfoldable pub version_from_attr : Option Attr → ℕ
version_from_attr none = 0
version_from_attr (some a) =
    let mtime_ns = a.mtime * 1000000000 + a.mtimensec in
    let ctime_ns = a.ctime * 1000000000 + a.ctimensec in
    let v =
      (mtime_ns * 11400714819323198485
        + ctime_ns * 14181476777654086739
        + a.size * 16597577988658736719)
      % 2 ^ 64 in
    if v == 0 then 1 else v

pub record Caller : Type 0 where
  pub uid : ℕ
  pub gid : ℕ
  pub pid : ℕ

-- `createContext`: an absent caller is root with no pid.
abbrev pub create_context : Option Caller → Caller
create_context none = record { uid = 0; gid = 0; pid = 0 }
create_context (some c) = c

-- A handle, or the status of the failure, which is not 0.
pub data Opened (F : Type 0) : Type 0 where
  opened : F → Opened F
  failed : ℕ → Opened F

pub record FileSystem (W : Type 0) : Type 1 where
  pub File : Type 0
  pub get_attr : W → Bytes → Caller → ℕ × Option Attr
  pub mkdir : W → Bytes → ℕ → Caller → W × ℕ
  pub rmdir : W → Bytes → Caller → W × ℕ
  pub unlink : W → Bytes → Caller → W × ℕ
  pub rename : W → Bytes → Bytes → Caller → W × ℕ
  pub symlink : W → Bytes → Bytes → Caller → W × ℕ
  pub set_xattr : W → Bytes → Bytes → Bytes → ℕ → Caller → W × ℕ
  pub remove_xattr : W → Bytes → Bytes → Caller → W × ℕ
  pub truncate : W → Bytes → ℕ → Caller → W × ℕ
  pub chmod : W → Bytes → ℕ → Caller → W × ℕ
  pub chown : W → Bytes → ℕ → ℕ → Caller → W × ℕ
  pub utimens : W → Bytes → Option ℕ → Option ℕ → Caller → W × ℕ
  pub create : W → Bytes → ℕ → ℕ → Caller → W × Opened File
  pub open_file : W → Bytes → ℕ → Caller → W × Opened File
  pub write : W → File → Bytes → ℕ → W × ℕ × ℕ  -- the count, and the status
  pub flush : W → File → W
  pub release : W → File → W
