-- ===== src/Client/Coalesce.antt =====
-- `WriteCoalescer` of pkg/client/backend/transport/coalesce.go: small contiguous writes of one file
-- are gathered into one. The mutex makes each call one step.
pub mod Order
use g_mountie.Prelude.{
  ℕ, ◌+◌, Bool, true, false, ◌&&◌, not, Option, none, some, List, [], ◌∷◌, ◌++◌, ◌==◌, leb, length,
  if◌then◌else◌, Bytes,
}

pub record CoalescedWrite : Type 0 where
  pub offset : ℕ
  pub content : Bytes  -- Data

pub record WriteCoalescer : Type 0 where
  pub threshold : ℕ
  pub buf : Bytes
  pub start_off : ℕ
  pub has_data : Bool

abbrev pub new_write_coalescer : ℕ → WriteCoalescer
new_write_coalescer threshold = record {
  threshold = threshold;
  buf = [];
  start_off = 0;
  has_data = false;
}

abbrev pub snapshot : WriteCoalescer → CoalescedWrite
snapshot c = record { offset = c.start_off; content = c.buf }

abbrev pub reset : WriteCoalescer → WriteCoalescer
reset c = record c { buf = []; start_off = 0; has_data = false }

-- The coalescer, and the batch that the caller must send.
unfoldable pub append_write : WriteCoalescer → Bytes → ℕ → WriteCoalescer × Option CoalescedWrite
append_write c bytes off =
    let seeded = record c { start_off = off; buf = bytes; has_data = true } in
    let grown = record c {
      start_off = if c.has_data then c.start_off else off;
      buf = c.buf ++ bytes;
      has_data = true;
    } in
    if c.has_data && not (off == c.start_off + length c.buf)
    then (seeded, some (snapshot c))
    else (if leb c.threshold (length grown.buf)
        then (reset grown, some (snapshot grown))
        else (grown, none))

unfoldable pub drain : WriteCoalescer → WriteCoalescer × Option CoalescedWrite
drain c = if c.has_data then (reset c, some (snapshot c)) else (c, none)
