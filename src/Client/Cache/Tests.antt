-- ===== src/Client/Cache/Tests.antt =====
-- Runs of the client's caches, and the theorems at them.
use g_mountie.Prelude.{
  ℕ, ◌≡◌, ◌≢◌, refl, arith, true, false, some, List, [], ◌∷◌, Bytes, get, Bytes-discrete,
  ℕ_discrete,
}
use g_mountie.Client.Overlay.{NodeAttr}
use g_mountie.Client.Overlay.Listing.{split_path2, cut_last}
use g_mountie.Client.Layer.{failed, answered}
use g_mountie.Fserr.{enoent}
use g_mountie.Client.Cache.{
  DirEntry, CachedBackend, positive, attr_get, dir_get, is_trusted, path_parent, plus_from_entries,
  new_validity_tracker, cached_attr_lookup, list_dir, is_path_verified,
}
use g_mountie.Client.Cache.Freshness.{
  check_of, Agrees, served, cached_attr_lookup-Agrees, list_dir-cached_attr_lookup,
}
use g_mountie.Client.Chunks.{
  load, new_tier, tier_steps, TierStep, captures, samples, checks_job, puts, rechecks_job,
  file_changes, cleans, clears, prunes, deletes_poison, delete_poison, tier_step, capture, sample,
  check_job, put_chunk, recheck_job, begin_clean, clear_disk, prune, bump_gen,
}

abbrev dir_path : Bytes
dir_path = 97 ∷ 47 ∷ 98 ∷ []

abbrev attr_at : ℕ → NodeAttr
attr_at version = record {
  ino = 7;
  size = 0;
  blocks = 0;
  atime = 0;
  atime_nsec = 0;
  mtime = 0;
  mtime_nsec = 0;
  ctime = 0;
  mode = 16877;
  nlink = 2;
  uid = 0;
  gid = 0;
  blksize = 4096;
  version = version;
}

abbrev old_name : DirEntry
old_name = record { ino = 8; mode = 33188; name = 99 ∷ [] }

-- A directory that was listed at version 1.
abbrev listed_once : CachedBackend
listed_once = record {
  cfg = record { attr_ttl = 0; negative_ttl = 5; dir_ttl = 0 };
  attr = (dir_path, record { attr = some (attr_at 1); expires_at = 0 }) ∷ [];
  dir = (dir_path, record { entries = old_name ∷ []; expires_at = 0 }) ∷ [];
  data_chunks = [];
  validity = new_validity_tracker;
}

attr_held : attr_get listed_once 10 dir_path ≡ positive (attr_at 1)
unfolding attr_get get Bytes-discrete ℕ_discrete
attr_held = refl

not_trusted : is_trusted listed_once.validity false dir_path ≡ false
unfolding is_path_verified get Bytes-discrete ℕ_discrete
not_trusted = refl

listing_held : dir_get listed_once 10 dir_path ≡ some (old_name ∷ [])
unfolding dir_get get Bytes-discrete ℕ_discrete
listing_held = refl

elsewhere : path_parent dir_path ≢ dir_path
unfolding split_path2 cut_last
elsewhere e = ground (arith, e)

cached_attr_lookup-Agrees_example : Agrees 10 dir_path (some (attr_at 2)) (
    cached_attr_lookup listed_once 10 false dir_path
      (check_of (some (attr_at 2)))
      (served (some (attr_at 2))))
cached_attr_lookup-Agrees_example =
    cached_attr_lookup-Agrees listed_once 10 dir_path (some (attr_at 2)) not_trusted
      (rw attr_held (λ e. absurd (omega (arith, e))))

list_dir-cached_attr_lookup_example :
    let r =
      cached_attr_lookup listed_once 10 false dir_path
        (check_of (some (attr_at 2)))
        (failed enoent) in
    (list_dir r.0 10 false dir_path (check_of (some (attr_at 2))) (answered [])).1
    ≡ answered (plus_from_entries (old_name ∷ []))
list_dir-cached_attr_lookup_example =
    list_dir-cached_attr_lookup listed_once 10 dir_path (attr_at 2) (attr_at 1) (old_name ∷ [])
      (failed enoent) (answered []) elsewhere not_trusted attr_held refl listing_held

-- A chunk is read and written through; the file changes, a cleaner runs, and the chunk is read again.
abbrev reread : List TierStep
reread =
    captures
    ∷ samples 0
    ∷ checks_job 0
    ∷ puts 0 true
    ∷ rechecks_job 0 true
    ∷ file_changes
    ∷ cleans
    ∷ clears true
    ∷ deletes_poison
    ∷ prunes
    ∷ captures
    ∷ samples 0
    ∷ checks_job 0
    ∷ puts 0 true
    ∷ rechecks_job 0 true
    ∷ []

-- A job writes old bytes after the chunk is cleared and fails to undo it, before the cleaner removes
-- the poison.
abbrev late_poison : List TierStep
late_poison =
    captures
    ∷ samples 0
    ∷ checks_job 0
    ∷ file_changes
    ∷ cleans
    ∷ clears true
    ∷ puts 0 true
    ∷ rechecks_job 0 false
    ∷ deletes_poison
    ∷ []

late_poison_loads : load (tier_steps new_tier late_poison) ≡ some 0
unfolding tier_steps tier_step capture sample check_job put_chunk recheck_job begin_clean clear_disk
    delete_poison prune bump_gen
late_poison_loads = refl

late_poison_floor : (tier_steps new_tier late_poison).floor ≡ 1
unfolding tier_steps tier_step capture sample check_job put_chunk recheck_job begin_clean clear_disk
    delete_poison prune bump_gen
late_poison_floor = refl
