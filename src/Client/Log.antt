-- ===== src/Client/Log.antt =====
-- The client's durable op-log, pkg/client/backend/wal/log.go. An entry of the bucket "ops" is a
-- sequence number with its operation, or with `none` where the stored text no longer parses. bbolt
-- keeps the entries by their big-endian keys, so in the order of the numbers; whether a transaction
-- commits is an argument.
pub mod Laws
use g_mountie.Prelude.{
  ℕ, ◌+◌, ◌%◌, ◌^◌, Bool, true, false, Option, none, some, List, [], ◌∷◌, ◌==◌, ltb, leb,
  if◌then◌else◌, Bytes,
}

pub data OpKind : Type 0 where
  op_write op_create op_set_attr op_mkdir op_rename op_unlink op_rmdir op_symlink : OpKind
  op_set_xattr op_remove_xattr : OpKind

pub record Op : Type 0 where
  pub seq : ℕ  -- uint64
  pub gen : ℕ  -- uint64
  pub kind : OpKind
  pub path : Bytes
  pub new_path : Bytes
  pub offset : ℕ
  pub content : Bytes  -- Data
  pub mode : ℕ
  pub flags : ℕ
  pub valid : ℕ  -- the FATTR_* mask
  pub uid : ℕ
  pub gid : ℕ
  pub size : ℕ
  pub atime_sec : ℕ
  pub atime_nsec : ℕ
  pub mtime_sec : ℕ
  pub mtime_nsec : ℕ
  pub xattr_name : Bytes
  pub xattr_value : Bytes
  pub xattr_flags : ℕ

abbrev pub LogEntry : Type 0
LogEntry = ℕ × Option Op

pub record BboltLog : Type 0 where
  pub entries : List LogEntry
  pub hi_seq : Option ℕ
  pub epoch : Bytes

abbrev pub load_hi_seq : Option ℕ → ℕ
load_hi_seq none = 0
load_hi_seq (some n) = n

-- The database as `Open` finds it: its entries, the stored high mark and the stored epoch, which
-- is minted where there is none.
unfoldable pub open_log : List LogEntry → Option ℕ → Option Bytes → Bytes → BboltLog
open_log entries hi none minted = record { entries = entries; hi_seq = hi; epoch = minted }
open_log entries hi (some []) minted = record { entries = entries; hi_seq = hi; epoch = minted }
open_log entries hi (some (c ∷ e)) minted = record { entries = entries; hi_seq = hi; epoch = c ∷ e }

-- A cursor's last key.
unfoldable pub last_key : List LogEntry → Option ℕ
last_key [] = none
last_key ((k, v) ∷ []) = some k
last_key (_ ∷ e ∷ l) = last_key (e ∷ l)

-- Put of a bucket: in key order, over the value that the key has.
unfoldable pub put_entry : ℕ → Option Op → List LogEntry → List LogEntry
put_entry seq v [] = (seq, v) ∷ []
put_entry seq v ((k, w) ∷ l) =
    let rest = put_entry seq v l in
    if ltb seq k then (seq, v) ∷ (k, w) ∷ l else (if seq == k then (seq, v) ∷ l else (k, w) ∷ rest)

abbrev pub after_last : Option ℕ → ℕ
after_last none = 1
after_last (some k) = (k + 1) % 2 ^ 64

-- The number of the next operation: past the last entry and past the high mark.
unfoldable pub next_seq : BboltLog → ℕ
unfolding last_key
next_seq l =
    let first = after_last (last_key l.entries) in
    let above = (load_hi_seq l.hi_seq + 1) % 2 ^ 64 in if ltb first above then above else first

-- The number that `Append` assigns, and the log; `none` where the transaction does not commit.
unfoldable pub append : Bool → BboltLog → Op → Option (ℕ × BboltLog)
unfolding put_entry
append false l op = none
append true l op =
    let n = next_seq l in
    some (
      n,
      record l { entries = put_entry n (some (record op { seq = n })) l.entries; hi_seq = some n },
    )

-- The cursor from a key on.
unfoldable pub seek : ℕ → List LogEntry → List LogEntry
seek key [] = []
seek key ((k, v) ∷ l) = let rest = seek key l in if ltb k key then rest else (k, v) ∷ l

-- The operations that still parse.
unfoldable pub parsed : List LogEntry → List Op
parsed [] = []
parsed ((k, none) ∷ l) = parsed l
parsed ((k, some op) ∷ l) = op ∷ parsed l

unfoldable pub replay : BboltLog → ℕ → List Op
unfolding seek parsed
replay l from_seq =
    if from_seq == 0 then parsed l.entries else parsed (seek ((from_seq + 1) % 2 ^ 64) l.entries)

-- The entries up to a number, and those that follow the first one beyond it.
unfoldable pub up_to : ℕ → List LogEntry → List LogEntry
up_to n [] = []
up_to n ((k, v) ∷ l) = let rest = up_to n l in if ltb n k then [] else (k, v) ∷ rest

unfoldable pub beyond : ℕ → List LogEntry → List LogEntry
beyond n [] = []
beyond n ((k, v) ∷ l) = let rest = beyond n l in if ltb n k then (k, v) ∷ l else rest

-- `none` where the transaction does not commit.
unfoldable pub truncate : Bool → BboltLog → ℕ → Option BboltLog
unfolding beyond
truncate false l through_seq = none
truncate true l through_seq = some (record l { entries = beyond through_seq l.entries })

unfoldable pub prefix : BboltLog → ℕ → List Op
unfolding up_to parsed
prefix l through_seq = parsed (up_to through_seq l.entries)
