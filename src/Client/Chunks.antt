-- ===== src/Client/Chunks.antt =====
-- The disk tier of the data cache, `newDataCacheWithChunkPersist` of pkg/client/backend/cache/data.go and
-- the write-behind of store.go, for one chunk of one path. Bytes are known by the version of the
-- file that they were read at. The bump of a generation, which looks up the path's counter, adds to
-- the global one and stores, is one step. Each other access to the disk's index, the poison and
-- the generations is a step of its own; a clearing that fails is one with the poison it leaves. `floor` is the version that the last invalidation saw: bytes below it are
-- stale.
pub mod Stale
use g_mountie.Prelude.{
  ℕ, ◌+◌, ◌-◌, ◌%◌, ◌^◌, Bool, true, false, ◌&&◌, not, Option, none, some, List, [], ◌∷◌, ◌==◌, ltb,
  if◌then◌else◌,
}

pub data Stage : Type 0 where
  queued writing written : Stage

-- persistJob
pub record Job : Type 0 where
  pub gen : ℕ
  pub sampled : ℕ
  pub stage : Stage

pub record Tier : Type 0 where
  pub global_gen : ℕ
  pub counter : Option ℕ  -- the path's entry of `gens`
  pub version : ℕ  -- of the file on the server
  pub floor : ℕ
  pub disk : Option ℕ
  pub poisoned : Bool
  pub captured : List ℕ  -- reads that have the generation, and not yet the bytes
  pub jobs : List Job
  pub cleaning : ℕ  -- cleaners that have bumped the generation, and not yet cleared the disk
  pub elsewhere : ℕ  -- the same, of ranges without the chunk
  pub deleting : ℕ  -- cleaners that have cleared the disk, and not yet removed the poison

abbrev pub new_tier : Tier
new_tier = record {
  global_gen = 0;
  counter = none;
  version = 0;
  floor = 0;
  disk = none;
  poisoned = false;
  captured = [];
  jobs = [];
  cleaning = 0;
  elsewhere = 0;
  deleting = 0;
}

abbrev pub or_seed : ℕ → Option ℕ → ℕ
or_seed seed none = seed
or_seed seed (some c) = c

-- `curGen`: what it answers, and the entry that it leaves.
abbrev pub cur_gen : Tier → ℕ
cur_gen t = or_seed t.global_gen t.counter

abbrev pub seeded : Tier → Tier
seeded t = record t { counter = some (cur_gen t) }

-- `bumpGen`, for this path.
unfoldable pub bump_gen : Tier → Tier
bump_gen t = record t { global_gen = t.global_gen + 1; counter = some (t.global_gen + 1) }

abbrev pub nth_gen : List ℕ → ℕ → Option ℕ
nth_gen [] k = none
nth_gen (g ∷ l) k = if k == 0 then some g else nth_gen l (k - 1)

abbrev pub nth_job : List Job → ℕ → Option Job
nth_job [] k = none
nth_job (j ∷ l) k = if k == 0 then some j else nth_job l (k - 1)

abbrev pub drop_job : List Job → ℕ → List Job
drop_job [] k = []
drop_job (j ∷ l) k = if k == 0 then l else j ∷ drop_job l (k - 1)

abbrev pub set_stage : List Job → ℕ → Stage → List Job
set_stage [] k s = []
set_stage (j ∷ l) k s = if k == 0 then record j { stage = s } ∷ l else j ∷ set_stage l (k - 1) s

-- A read captures the generation, reads the bytes and queues its job.
unfoldable pub capture : Tier → Tier
capture t = record (seeded t) { captured = cur_gen t ∷ t.captured }

abbrev pub enqueue : Tier → Option ℕ → Tier
enqueue t none = t
enqueue t (some g) = record t {
  jobs = record { gen = g; sampled = t.version; stage = queued } ∷ t.jobs;
}

unfoldable pub sample : Tier → ℕ → Tier
sample t k = enqueue t (nth_gen t.captured k)

abbrev pub is_queued : Stage → Bool
is_queued queued = true
is_queued _ = false

abbrev pub is_writing : Stage → Bool
is_writing writing = true
is_writing _ = false

abbrev pub is_written : Stage → Bool
is_written written = true
is_written _ = false

abbrev pub check_of : Tier → ℕ → Option Job → Tier
check_of t k none = t
check_of t k (some j) =
    let jobs = if cur_gen t == j.gen then set_stage t.jobs k writing else drop_job t.jobs k in
    if is_queued j.stage then record (seeded t) { jobs = jobs } else t

-- `onPersist` up to its first look at the generation.
unfoldable pub check_job : Tier → ℕ → Tier
check_job t k = check_of t k (nth_job t.jobs k)

abbrev pub put_of : Tier → ℕ → Bool → Option Job → Tier
put_of t k ok none = t
put_of t k ok (some j) =
    if is_writing j.stage
    then (if ok
        then record t { disk = some j.sampled; jobs = set_stage t.jobs k written }
        else record t { jobs = drop_job t.jobs k })
    else t

-- `WriteChunk` and `PutChunkRef`.
unfoldable pub put_chunk : Tier → ℕ → Bool → Tier
put_chunk t k ok = put_of t k ok (nth_job t.jobs k)

-- Undoing a write: clear the chunk, or poison the path.
abbrev pub clear_or_poison : Bool → Tier → Tier
clear_or_poison true t = record t { disk = none }
clear_or_poison false t = record t { poisoned = true }

abbrev pub recheck_of : Tier → ℕ → Bool → Option Job → Tier
recheck_of t k ok none = t
recheck_of t k ok (some j) =
    let done = record (seeded t) { jobs = drop_job t.jobs k } in
    if is_written j.stage then (if cur_gen t == j.gen then done else clear_or_poison ok done) else t

-- The second look of `onPersist`.
unfoldable pub recheck_job : Tier → ℕ → Bool → Tier
recheck_job t k ok = recheck_of t k ok (nth_job t.jobs k)

-- `persistCleaner`, or `persistRangeCleaner` of a range with the chunk, up to the clearing.
unfoldable pub begin_clean : Tier → Tier
unfolding bump_gen
begin_clean t = record (bump_gen t) { cleaning = t.cleaning + 1; floor = t.version }

unfoldable pub clear_disk : Tier → Bool → Tier
clear_disk t ok =
    if ltb 0 t.cleaning
    then (if ok
        then record t { disk = none; cleaning = t.cleaning - 1; deleting = t.deleting + 1 }
        else record t { poisoned = true; cleaning = t.cleaning - 1 })
    else t

-- `persistRangeCleaner` of a range without the chunk: its bump, and its clearing.
unfoldable pub begin_elsewhere : Tier → Tier
unfolding bump_gen
begin_elsewhere t = record (bump_gen t) { elsewhere = t.elsewhere + 1 }

unfoldable pub clear_elsewhere : Tier → Bool → Tier
clear_elsewhere t ok =
    if ltb 0 t.elsewhere
    then (if ok
        then record t { elsewhere = t.elsewhere - 1; deleting = t.deleting + 1 }
        else record t { poisoned = true; elsewhere = t.elsewhere - 1 })
    else t

-- `poisoned.Delete`, after a clearing that succeeded.
unfoldable pub delete_poison : Tier → Tier
delete_poison t =
    if ltb 0 t.deleting then record t { poisoned = false; deleting = t.deleting - 1 } else t

-- The end of `persistCleaner`.
unfoldable pub prune : Tier → Tier
prune t = record t { counter = none }

-- The loader: a poisoned path has nothing on disk.
abbrev pub load : Tier → Option ℕ
load t = if t.poisoned then none else t.disk

pub data TierStep : Type 0 where
  file_changes captures cleans cleans_elsewhere deletes_poison prunes bumps_other : TierStep
  samples checks_job : ℕ → TierStep
  puts rechecks_job : ℕ → Bool → TierStep
  clears clears_elsewhere : Bool → TierStep

unfoldable pub tier_step : Tier → TierStep → Tier
tier_step t file_changes = record t { version = t.version + 1 }
tier_step t captures = capture t
tier_step t cleans = begin_clean t
tier_step t prunes = prune t
tier_step t bumps_other = record t { global_gen = t.global_gen + 1 }
tier_step t (samples k) = sample t k
tier_step t (checks_job k) = check_job t k
tier_step t (puts k ok) = put_chunk t k ok
tier_step t (rechecks_job k ok) = recheck_job t k ok
tier_step t (clears ok) = clear_disk t ok
tier_step t cleans_elsewhere = begin_elsewhere t
tier_step t (clears_elsewhere ok) = clear_elsewhere t ok
tier_step t deletes_poison = delete_poison t

unfoldable pub tier_steps : Tier → List TierStep → Tier
tier_steps t [] = t
tier_steps t (s ∷ steps) = tier_steps (tier_step t s) steps
