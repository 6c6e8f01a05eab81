-- ===== src/Delegation/Cooldown.antt =====
-- `cooldownTable` of pkg/server/delegation/cooldown.go. Times and durations are nanoseconds.
pub mod Windows
use g_mountie.Prelude.{
  ℕ, ◌+◌, ◌*◌, ◌<◌, Bool, true, false, not, Option, none, some, List, [], ◌∷◌, ltb, leb, length,
  keep_if, get, put, del, min, if◌then◌else◌, Bytes, Bytes-discrete,
}

pub record CooldownConfig : Type 0 where
  pub base : ℕ
  pub max_window : ℕ
  pub cap : ℕ

abbrev pub cooldown_config_default : CooldownConfig
cooldown_config_default = record { base = 1000000000; max_window = 60000000000; cap = 4096 }

pub record CoolEntry : Type 0 where
  pub until : ℕ
  pub window : ℕ

pub record CooldownTable : Type 0 where
  pub cfg : CooldownConfig
  pub entries : List (Bytes × CoolEntry)

abbrev pub new_cooldown_table : CooldownConfig → CooldownTable
new_cooldown_table cfg = record { cfg = cfg; entries = [] }

-- The window of the next trip: the base, or twice the last one up to the maximum.
unfoldable pub next_window : CooldownConfig → Option CoolEntry → ℕ
next_window cfg none = cfg.base
next_window cfg (some e) =
    if ltb cfg.max_window (e.window * 2) then cfg.max_window else e.window * 2

-- The loop of `evictOldest` past its first entry: the key with the least deadline so far.
unfoldable pub oldest_from : Bytes → ℕ → List (Bytes × CoolEntry) → Bytes
oldest_from key oldest [] = key
oldest_from key oldest ((k, e) ∷ m) =
    let earlier = ltb e.until oldest in
    oldest_from (if earlier then k else key) (if earlier then e.until else oldest) m

unfoldable pub evict_oldest : List (Bytes × CoolEntry) → List (Bytes × CoolEntry)
unfolding oldest_from del
evict_oldest [] = []
evict_oldest ((k, e) ∷ m) = del Bytes-discrete ((k, e) ∷ m) (oldest_from k e.until m)

unfoldable pub make_room : CooldownTable → List (Bytes × CoolEntry)
unfolding evict_oldest
make_room c = if leb c.cfg.cap (length c.entries) then evict_oldest c.entries else c.entries

unfoldable pub trip : CooldownTable → Bytes → ℕ → CooldownTable
unfolding next_window make_room get put
trip c root now =
    let w = next_window c.cfg (get Bytes-discrete c.entries root) in
    record c {
      entries = put Bytes-discrete (make_room c) root (record { until = now + w; window = w });
    }

abbrev pub is_before : ℕ → Option CoolEntry → Bool
is_before now none = false
is_before now (some e) = ltb now e.until

unfoldable pub cooling : CooldownTable → Bytes → ℕ → Bool
unfolding get
cooling c root now = is_before now (get Bytes-discrete c.entries root)

unfoldable pub sweep_entries : List (Bytes × CoolEntry) → ℕ → List (Bytes × CoolEntry)
sweep_entries m now = keep_if (λ e. ltb now (e.1).until) m

unfoldable pub sweep : CooldownTable → ℕ → CooldownTable
unfolding sweep_entries
sweep c now = record c { entries = sweep_entries c.entries now }
