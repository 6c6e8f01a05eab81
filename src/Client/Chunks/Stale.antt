-- ===== src/Client/Chunks/Stale.antt =====
-- The chunk on disk against the versions of its file.
use g_mountie.Prelude.{
  ℕ, ◌≤◌, ◌<◌, ◌≡◌, ◌⊎◌, Bool, true, false, ◌&&◌, some, List, [], ◌∷◌, ltb, if◌then◌else◌, All,
}
use g_mountie.Client.Chunks.{
  cleans_elsewhere, Job, Tier, cur_gen, is_written, TierStep, rechecks_job, clears, tier_step,
}

-- A job of stale bytes has a generation that the path has left for good.
abbrev JobOk : ℕ → ℕ → ℕ → Job → Type 0
JobOk global cur floor j = (j.gen ≤ global) × (j.sampled < floor → j.gen < cur)

abbrev JobsOk : ℕ → ℕ → ℕ → List Job → Type 0
JobsOk global cur floor jobs = All (JobOk global cur floor) jobs

-- A job that has written stale bytes, which it will undo.
abbrev is_undo : ℕ → Job → Bool
is_undo floor j = is_written j.stage && ltb j.sampled floor

abbrev has_undo : ℕ → List Job → Bool
has_undo floor [] = false
has_undo floor (j ∷ jobs) = if is_undo floor j then true else has_undo floor jobs

abbrev GensOk : ℕ → List ℕ → Type 0
GensOk global gens = All (λ g. g ≤ global) gens

-- The path is poisoned, and no cleaner will remove the poison.
abbrev Poisoned : Tier → Type 0
Poisoned t = (t.poisoned ≡ true) × (t.deleting ≡ 0) × (t.elsewhere ≡ 0)

-- No failure leaves its poison while a cleaner stands between its clearing and its removal of the
-- poison, or invalidates a range without the chunk; and no such range is invalidated while
-- the path is poisoned.
abbrev pub Timely : Tier → TierStep → Type 0
Timely t (clears false) = (t.deleting ≡ 0) × (t.elsewhere ≡ 0)
Timely t (rechecks_job k false) = (t.deleting ≡ 0) × (t.elsewhere ≡ 0)
Timely t cleans_elsewhere = t.poisoned ≡ false
Timely t _ = Unit

abbrev pub AllTimely : Tier → List TierStep → Type 0
AllTimely t [] = Unit
AllTimely t (s ∷ steps) = Timely t s × AllTimely (tier_step t s) steps

-- A stale chunk is on disk only while the path is poisoned, a cleaner has yet to clear it, or a job
-- has yet to undo it.
abbrev DiskOk : Tier → Type 0
DiskOk t =
    (u : ℕ)
    → t.disk ≡ some u
    → u < t.floor
    → Poisoned t ⊎ ((0 < t.cleaning) ⊎ (has_undo t.floor t.jobs ≡ true))

-- The same without a poison that stays.
abbrev DiskElsewhere : Tier → Type 0
DiskElsewhere t =
    (u : ℕ) → t.disk ≡ some u → u < t.floor → (0 < t.cleaning) ⊎ (has_undo t.floor t.jobs ≡ true)

abbrev pub Safe : Tier → Type 0
Safe t =
    (cur_gen t ≤ t.global_gen)
    × GensOk t.global_gen t.captured
    × JobsOk t.global_gen (cur_gen t) t.floor t.jobs
    × (t.floor ≤ t.version)
    × DiskOk t
