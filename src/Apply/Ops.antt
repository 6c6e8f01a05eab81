-- ===== src/Apply/Ops.antt =====
-- What one operation of the log does to the filesystem, and the events it emits.
use g_mountie.Prelude.{
  ℕ, ◌/◌, ◌%◌, Bool, true, false, ◌&&◌, ◌||◌, not, Option, none, some, List, [], ◌∷◌, ◌++◌, ◌==◌,
  length, if◌then◌else◌, Bytes,
}
use g_mountie.Apply.FileSystem.{Attr, Caller, version_from_attr, Opened, opened, failed, FileSystem}

-- FATTR_* of go-fuse, and O_WRONLY, S_IFMT and errnos of Linux.
abbrev pub fattr_mode : ℕ
fattr_mode = 1

abbrev pub fattr_uid : ℕ
fattr_uid = 2

abbrev pub fattr_gid : ℕ
fattr_gid = 4

abbrev pub fattr_size : ℕ
fattr_size = 8

abbrev pub fattr_atime : ℕ
fattr_atime = 16

abbrev pub fattr_mtime : ℕ
fattr_mtime = 32

-- valid & bit != 0, for a power of two
abbrev pub has_bit : ℕ → ℕ → Bool
has_bit valid bit = valid / bit % 2 == 1

abbrev pub o_wronly : ℕ
o_wronly = 1

abbrev pub s_ifdir : ℕ
s_ifdir = 4

abbrev pub s_iflnk : ℕ
s_iflnk = 10

-- mode & S_IFMT, shifted down
abbrev pub file_type : ℕ → ℕ
file_type mode = mode / 4096 % 16

abbrev pub errno_enoent : ℕ
errno_enoent = 2

abbrev pub errno_eio : ℕ
errno_eio = 5

abbrev pub errno_eexist : ℕ
errno_eexist = 17

pub record SetAttrRequest : Type 0 where
  pub path : Bytes
  pub valid : ℕ
  pub size : ℕ
  pub mode : ℕ
  pub uid : ℕ
  pub gid : ℕ
  pub atime : Option ℕ
  pub mtime : Option ℕ

-- The `oneof` of proto.WalOp.
pub data OpBody : Type 0 where
  create : Bytes → ℕ → ℕ → OpBody  -- path, flags, mode
  write : Bytes → Bytes → ℕ → OpBody  -- path, data, offset
  release : OpBody
  mkdir : Bytes → ℕ → OpBody
  rmdir : Bytes → OpBody
  unlink : Bytes → OpBody
  rename : Bytes → Bytes → OpBody
  symlink : Bytes → Bytes → OpBody  -- target, link path
  set_attr : SetAttrRequest → OpBody
  set_xattr : Bytes → Bytes → Bytes → ℕ → OpBody
  remove_xattr : Bytes → Bytes → OpBody
  unknown : OpBody

pub record WalOp : Type 0 where
  pub seq : ℕ  -- uint64
  pub gen : ℕ  -- uint64
  pub wal_epoch : Bytes
  pub volume : Bytes
  pub caller : Option Caller
  pub body : OpBody

pub data Event : Type 0 where
  mutated : Bytes → ℕ → Event
  deleted : Bytes → Event
  renamed : Bytes → Bytes → ℕ → Event

-- The state that an operation changes: the filesystem, and the events that it has emitted.
pub record World (W : Type 0) : Type 0 where
  pub fs : W
  pub events : List Event

-- One step of `applySetAttr`: the state, the status so far, and whether anything has changed.
pub record Setting (W : Type 0) : Type 0 where
  pub fs : W
  pub status : ℕ
  pub changed : Bool

module _ {W : Type 0} (api : FileSystem W) (subscribers : Bool) where
  unfoldable pub emit : World W → Event → World W
  emit w ev = if subscribers then record w { events = w.events ++ ev ∷ [] } else w

  -- `emitMutatedAttr`
  unfoldable pub emit_mutated_attr : World W → Bytes → Option Attr → World W
  unfolding emit
  emit_mutated_attr w path attr = emit w (Event.mutated path (version_from_attr attr))

  abbrev attr_of : ℕ × Option Attr → Option Attr
  attr_of (st, attr) = if st == 0 then attr else none

  -- The stat after a mutation, and the event with its version or with version 0.
  unfoldable pub stat_attrs_and_emit : World W → Bytes → Caller → World W
  unfolding emit_mutated_attr
  stat_attrs_and_emit w path c = emit_mutated_attr w path (attr_of (api.get_attr w.fs path c))

  -- An event follows a call that succeeded.
  abbrev finish : World W → (World W → World W) → W × ℕ → World W × ℕ
  finish w after (fs, st) =
      (if st == 0 then after (record w { fs = fs }) else record w { fs = fs }, st)

  abbrev close_created : World W → Bytes → Caller → W × Opened api.File → World W × ℕ
  close_created w path c (fs, failed st) = (record w { fs = fs }, st)
  close_created w path c (fs, opened f) =
      (stat_attrs_and_emit (record w { fs = api.release (api.flush fs f) f }) path c, 0)

  -- `applyCreate`: the new file is flushed and released at once.
  unfoldable pub apply_create : World W → Caller → Bytes → ℕ → ℕ → World W × ℕ
  apply_create w c path flags mode = close_created w path c (api.create w.fs path flags mode c)

  -- The deferred flush and release come after the event.
  abbrev closing : api.File → World W → World W
  closing f w = record w { fs = api.release (api.flush w.fs f) f }

  abbrev written : World W → Bytes → Caller → Bytes → api.File → W × ℕ × ℕ → World W × ℕ
  written w path c bytes f (fs, n, st) =
      let v = record w { fs = fs } in
      if not (st == 0)
      then (closing f v, st)
      else (if not (n == length bytes)
          then (closing f v, errno_eio)
          else (closing f (stat_attrs_and_emit v path c), 0))

  abbrev write_opened : World W → Bytes → Caller → Bytes → ℕ → W × Opened api.File → World W × ℕ
  write_opened w path c bytes off (fs, failed st) = (record w { fs = fs }, st)
  write_opened w path c bytes off (fs, opened f) =
      written w path c bytes f (api.write fs f bytes off)

  -- `applyWrite`: open, write all, close. A short write is EIO.
  unfoldable pub apply_write : World W → Caller → Bytes → Bytes → ℕ → World W × ℕ
  apply_write w c path bytes off =
      write_opened w path c bytes off (api.open_file w.fs path o_wronly c)

  -- The path operations of `applyPathOp`, by their emit helper: `statAttrsAndEmit`, `deleteEmit`,
  -- `mutateEmit` and `renameEmit`.
  abbrev create_style : World W → Bytes → Caller → W × ℕ → World W × ℕ
  create_style w path c r = finish w (λ v. stat_attrs_and_emit v path c) r

  abbrev delete_style : World W → Bytes → W × ℕ → World W × ℕ
  delete_style w path r = finish w (λ v. emit v (Event.deleted path)) r

  abbrev version_after : World W → Bytes → Caller → ℕ
  version_after w path c = version_from_attr (attr_of (api.get_attr w.fs path c))

  abbrev mutate_style : World W → Bytes → Caller → W × ℕ → World W × ℕ
  mutate_style w path c r = finish w (λ v. emit v (Event.mutated path (version_after v path c))) r

  abbrev rename_style : World W → Bytes → Bytes → Caller → W × ℕ → World W × ℕ
  rename_style w old new c r =
      finish w (λ v. emit v (Event.renamed old new (version_after v new c))) r

  abbrev set_done : Setting W → W × ℕ → Setting W
  set_done s (fs, st) =
      if st == 0
      then record { fs = fs; status = 0; changed = true }
      else record { fs = fs; status = st; changed = s.changed }

  abbrev set_if : Bool → Setting W → (W → W × ℕ) → Setting W
  set_if wanted s call =
      if not (s.status == 0) then s else (if wanted then set_done s (call s.fs) else s)

  abbrev chown_from : W → SetAttrRequest → Caller → ℕ × Option Attr → W × ℕ
  chown_from fs r c (st, attr) = if not (st == 0) then (fs, st) else chown_with attr
    where
      chown_with : Option Attr → W × ℕ
      chown_with none = (fs, errno_eio)
      chown_with (some a) =
          api.chown fs r.path (if has_bit r.valid fattr_uid then r.uid else a.uid)
            (if has_bit r.valid fattr_gid then r.gid else a.gid) c

  -- Chown with the half that is not asked for read back from the file.
  unfoldable pub chown_part : SetAttrRequest → Caller → W → W × ℕ
  chown_part r c fs =
      if has_bit r.valid fattr_uid && has_bit r.valid fattr_gid
      then api.chown fs r.path r.uid r.gid c
      else chown_from fs r c (api.get_attr fs r.path c)

  abbrev wanted_time : SetAttrRequest → ℕ → Option ℕ → Option ℕ
  wanted_time r bit time = if has_bit r.valid bit then time else none

  unfoldable pub apply_set_attr : W → SetAttrRequest → Caller → Setting W
  unfolding chown_part
  apply_set_attr fs r c =
      let start : Setting W = record { fs = fs; status = 0; changed = false } in
      let sized = set_if (has_bit r.valid fattr_size) start (λ v. api.truncate v r.path r.size c) in
      let moded = set_if (has_bit r.valid fattr_mode) sized (λ v. api.chmod v r.path r.mode c) in
      let owned =
        set_if (has_bit r.valid fattr_uid || has_bit r.valid fattr_gid) moded (chown_part r c) in
      set_if (has_bit r.valid fattr_atime || has_bit r.valid fattr_mtime) owned (λ v.
        api.utimens v r.path (wanted_time r fattr_atime r.atime) (wanted_time r fattr_mtime r.mtime)
          c)

  abbrev set_attr_result : World W → SetAttrRequest → Caller → Setting W → World W × ℕ
  set_attr_result w r c s =
      let v = record w { fs = s.fs } in
      if not (s.status == 0)
      then (if s.changed then emit_mutated_attr v r.path none else v, s.status)
      else (if s.changed then stat_attrs_and_emit v r.path c else v, 0)

  -- `applySetAttrOp`
  unfoldable pub apply_set_attr_op : World W → SetAttrRequest → Caller → World W × ℕ
  unfolding apply_set_attr
  apply_set_attr_op w r c = set_attr_result w r c (apply_set_attr w.fs r c)

  -- `applyWalOp`, with the branches of `applyPathOp`.
  unfoldable pub apply_wal_op : World W → Caller → OpBody → World W × ℕ
  unfolding emit stat_attrs_and_emit
  apply_wal_op w c (OpBody.create path flags mode) = apply_create w c path flags mode
  apply_wal_op w c (OpBody.write path bytes off) = apply_write w c path bytes off
  apply_wal_op w c OpBody.release = (w, 0)
  apply_wal_op w c (OpBody.mkdir path mode) = create_style w path c (api.mkdir w.fs path mode c)
  apply_wal_op w c (OpBody.rmdir path) = delete_style w path (api.rmdir w.fs path c)
  apply_wal_op w c (OpBody.unlink path) = delete_style w path (api.unlink w.fs path c)
  apply_wal_op w c (OpBody.rename old new) = rename_style w old new c (api.rename w.fs old new c)
  apply_wal_op w c (OpBody.symlink target path) =
      create_style w path c (api.symlink w.fs target path c)
  apply_wal_op w c (OpBody.set_attr r) = apply_set_attr_op w r c
  apply_wal_op w c (OpBody.set_xattr path name value flags) =
      mutate_style w path c (api.set_xattr w.fs path name value flags c)
  apply_wal_op w c (OpBody.remove_xattr path name) =
      mutate_style w path c (api.remove_xattr w.fs path name c)
  apply_wal_op w c OpBody.unknown = (w, errno_eio)

  abbrev mode_of : Option Attr → ℕ
  mode_of none = 0
  mode_of (some a) = a.mode

  -- `existingFileMode`
  unfoldable pub existing_file_mode : World W → Bytes → Caller → ℕ
  existing_file_mode w path c = mode_of (attr_of (api.get_attr w.fs path c))

  -- `idempotentSkip`: a failure whose wanted end state already holds.
  unfoldable pub idempotent_skip : World W → Caller → OpBody → ℕ → Bool
  unfolding existing_file_mode
  idempotent_skip w c (OpBody.mkdir path mode) st =
      (st == errno_eexist) && (file_type (existing_file_mode w path c) == s_ifdir)
  idempotent_skip w c (OpBody.symlink target path) st =
      (st == errno_eexist) && (file_type (existing_file_mode w path c) == s_iflnk)
  idempotent_skip w c (OpBody.unlink path) st = st == errno_enoent
  idempotent_skip w c (OpBody.rmdir path) st = st == errno_enoent
  idempotent_skip w c _ st = false
