-- ===== src/Client/Tests.antt =====
-- Runs of the client's parts on small inputs, and the theorems at them.
use g_mountie.Prelude.{
  ℕ, ◌+◌, ◌≤◌, ◌<◌, ◌≡◌, ◌⊎◌, inl, inr, refl, arith, true, false, none, some, List, [], ◌∷◌, ◌++◌,
  length, All, Bytes,
}
use g_mountie.Fserr.{fs_ok}
use g_mountie.Apply.Stream.{ApplyAck, ack_of, run}
use g_mountie.Apply.Tests.{dirs, bare}
use g_mountie.Client.Log.{
  Op, op_write, LogEntry, BboltLog, last_key, put_entry, next_seq, append, replay, beyond, truncate,
  prefix,
}
use g_mountie.Client.Log.Laws.{WellFormed, replay-append, truncate-replay}
use g_mountie.Client.Intervals.{ByteRange}
use g_mountie.Client.Intervals.Coverage.{Apart}
use g_mountie.Client.Coalesce.{WriteCoalescer, append_write}
use g_mountie.Client.Coalesce.Order.{placed, placed_batch, pending, Clean, append_write-placed}
use g_mountie.Client.Accountant.{CacheEntry, Accountant, insert}
use g_mountie.Client.Accountant.Budget.{Evicted, insert-Evicted}
use g_mountie.Client.Overlay.{Overlay, OverlayNode, zero_node, new_overlay}
use g_mountie.Client.Overlay.Apply.{reset}
use g_mountie.Client.Flush.{Coordinator, process_ack, chunks, stream_of}
use g_mountie.Paths.Order.{contains_refl}
use g_mountie.Client.Overlay.Apply.{apply_op}
use g_mountie.Client.Manager.{Manager, is_delegated, mark_draining, on_recall}
use g_mountie.Client.Manager.Recall.{on_recall_drops}
use g_mountie.Client.Flush.Chunks.{joined, chunks-joined}
use g_mountie.Client.Flush.Losses.{Listed, process_ack-survivors, batch-Listed}

abbrev op : ℕ → Bytes → ℕ → Bytes → Op
op seq path offset content = record {
  seq = seq;
  gen = 1;
  kind = op_write;
  path = path;
  new_path = [];
  offset = offset;
  content = content;
  mode = 0;
  flags = 0;
  valid = 0;
  uid = 0;
  gid = 0;
  size = 0;
  atime_sec = 0;
  atime_nsec = 0;
  mtime_sec = 0;
  mtime_nsec = 0;
  xattr_name = [];
  xattr_value = [];
  xattr_flags = 0;
}

abbrev a : Bytes
a = 97 ∷ []

abbrev entry : ℕ → LogEntry
entry seq = (seq, some (op seq a 0 (1 ∷ [])))

-- Entry 2 does not parse.
abbrev log : BboltLog
log = record { entries = entry 1 ∷ (2, none) ∷ entry 3 ∷ []; hi_seq = some 3; epoch = 101 ∷ [] }

log-WellFormed : WellFormed log
log-WellFormed = ((omega arith, (omega arith, (omega arith, omega arith))), omega arith)

abbrev grown : BboltLog
grown = record log { entries = entry 1 ∷ (2, none) ∷ entry 3 ∷ entry 4 ∷ []; hi_seq = some 4 }

replay-append_example :
    (replay grown 1 ≡ replay log 1 ++ op 4 a 0 (1 ∷ []) ∷ []) × WellFormed grown × (3 < 4)
replay-append_example =
    replay-append log grown (op 0 a 0 (1 ∷ [])) 1 4 log-WellFormed (omega arith) (omega arith)
      (unfold append in unfold next_seq in unfold put_entry in unfold last_key in refl)

abbrev cut : BboltLog
cut = record log { entries = entry 3 ∷ [] }

truncate-replay_example :
    (prefix cut 2 ≡ [])
    × (replay cut 2 ≡ replay log 2)
    × WellFormed cut
    × (cut.hi_seq ≡ log.hi_seq)
    × (cut.epoch ≡ log.epoch)
truncate-replay_example =
    truncate-replay log 2 2 {t = cut} log-WellFormed (omega arith) (omega arith)
      (unfold truncate in unfold beyond in refl)

abbrev range : ℕ → ℕ → ByteRange
range start stop = record { start = start; end = stop }

abbrev ranges : List ByteRange
ranges = range 0 4 ∷ range 10 20 ∷ []

ranges-Apart : Apart ranges
ranges-Apart = (omega arith, (omega arith, omega arith, tt))

abbrev gathering : WriteCoalescer
gathering = record { threshold = 8; buf = 1 ∷ 2 ∷ []; start_off = 4; has_data = true }

append_write-placed_example :
    let (d, out) = append_write gathering (3 ∷ []) 9 in
    (placed_batch out ++ pending d ≡ pending gathering ++ placed 9 (3 ∷ [])) × Clean d
append_write-placed_example = append_write-placed gathering (3 ∷ []) 9 (λ q. ground (arith, q))

abbrev cached : ℕ → ℕ → CacheEntry
cached id size = record { id = id; key = a; size = size }

abbrev full_cache : Accountant
full_cache = record {
  budget = 100;
  max_entries = 2;
  used = 90;
  lru = cached 1 40 ∷ cached 2 50 ∷ [];
}

insert-Evicted_example :
    Evicted
      (record full_cache { lru = cached 3 30 ∷ full_cache.lru; used = 90 + 30 })
      (insert full_cache (cached 3 30)).0
insert-Evicted_example = insert-Evicted full_cache (cached 3 30) (omega arith)

abbrev bytes : Bytes
bytes = 7 ∷ 7 ∷ 7 ∷ 7 ∷ 7 ∷ 7 ∷ []

abbrev pending_file : OverlayNode
pending_file = record zero_node { content = bytes; intervals = range 2 6 ∷ [] }

abbrev holding : Overlay
holding = record { nodes = (a, pending_file) ∷ []; next_ino = 2 }

abbrev sent : List Op
sent = op 1 a 0 (1 ∷ []) ∷ op 3 a 0 (1 ∷ []) ∷ []

chunks-joined_example :
    (joined (chunks 2 1 100 sent) ≡ sent)
    × All (λ batch. (0 < length batch) × (length batch ≤ 1)) (chunks 2 1 100 sent)
chunks-joined_example = chunks-joined 2 1 100 sent (omega arith) (omega arith) (omega arith)

abbrev client : Coordinator
client = record {
  log = log;
  overlay = new_overlay;
  watermark = 0;
  max_apply_ops = 0;
  max_apply_bytes = 0;
}

abbrev good_ack : ApplyAck
good_ack = record { watermark = 1; failed_seq = 0; fserr = fs_ok }

process_ack-survivors_example :
    let (d, lost, error) = process_ack true true (0, 0) client false (some good_ack) sent in
    (error ≡ none)
    × (d.watermark ≡ 1)
    × (replay d.log 0 ≡ replay log 1)
    × (d.overlay ≡ reset (replay d.log 0) (0, 0))
    × WellFormed d.log
process_ack-survivors_example =
    process_ack-survivors (0, 0) client good_ack sent log-WellFormed refl (omega arith)
      (omega arith)

-- The filesystem of directories refuses the write of the batch.
batch-Listed_example :
    let p = run dirs false bare 0 [] (stream_of (118 ∷ []) none (101 ∷ []) sent) in
    let (d, lost, error) = process_ack true true (0, 0) client false (some (ack_of p)) sent in
    (3 ≤ d.watermark) ⊎ Listed (op 3 a 0 (1 ∷ [])) lost
batch-Listed_example =
    batch-Listed dirs false bare 0 [] (118 ∷ []) none (101 ∷ []) true true (0, 0) client sent
      (op 3 a 0 (1 ∷ [])) ((omega arith, tt), (tt, tt)) (inr (inl refl))

-- The client holds the root "a" with generation 1.
abbrev holder : Manager
holder = record {
  grants = (a, record { granted_root = a; excluded_paths = []; gen = 1 }) ∷ [];
  draining = [];
}

on_recall_drops_example :
    let (b, acked) = on_recall (λ x. x) (λ x. x) true holder a in
    (acked ≡ true)
    × (true ≡ true → is_delegated b a ≡ false)
    × (true ≡ false → b.grants ≡ (mark_draining holder a).grants)
on_recall_drops_example =
    on_recall_drops (λ x. x) (λ x. x) true holder a a (contains_refl a) (λ x h. h)

abbrev after_record : Coordinator
after_record = record client {
  log = grown;
  overlay = apply_op new_overlay (op 0 a 0 (1 ∷ [])) (0, 0);
}
