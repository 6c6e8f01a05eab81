-- ===== src/Delegation/Cooldown/Windows.antt =====
-- How long a tripped root stays cold, and how many roots are tracked.
use native.Mathlib.Nat.{pow-succ', mul_assoc}
use g_mountie.Prelude.{
  ℕ, suc, ◌+◌, ◌*◌, ◌^◌, ◌≤◌, ◌<◌, ◌≡◌, refl, Option, some, List, [], ◌∷◌, ltb, inl, inr, arith,
  length, get, min, Bool-cases, Option-cases, Bytes, Bytes-discrete, get-put_self, Unique,
  get-keep_if, length-put-le, length-del-lt,
}
use g_mountie.Delegation.Cooldown.{
  CooldownConfig, CoolEntry, CooldownTable, next_window, oldest_from, evict_oldest, make_room, trip,
  cooling, sweep,
}

-- The key that `oldest_from` answers is the one given or one of the map.
oldest_from_tracked :
    (key : Bytes) (oldest : ℕ) (m n : List (Bytes × CoolEntry))
    → (e : CoolEntry) × (get Bytes-discrete n key ≡ some e)
    → ((k : Bytes) (e : CoolEntry)
        → get Bytes-discrete m k ≡ some e
        → (f : CoolEntry) × (get Bytes-discrete n k ≡ some f))
    → (e : CoolEntry) × (get Bytes-discrete n (oldest_from key oldest m) ≡ some e)
unfolding oldest_from get
oldest_from_tracked key oldest [] n h s = h
oldest_from_tracked key oldest ((k, e) ∷ m) n h s = elim (Bool-cases (ltb e.until oldest)) [
  | inl y ↦ rw y (oldest_from_tracked k e.until m n (s k e (ground arith)) deeper)
  | inr z ↦ rw z (oldest_from_tracked key oldest m n h deeper)
]
  where
    deeper :
        (j : Bytes) (g : CoolEntry)
        → get Bytes-discrete m j ≡ some g
        → (f : CoolEntry) × (get Bytes-discrete n j ≡ some f)
    deeper j g q = elim (Bytes-discrete k j) [
      | yes p ↦ s j e (ground arith)
      | no p ↦ s j g (ground arith)
    ]

length-evict_oldest :
    (m : List (Bytes × CoolEntry)) → 0 < length m → length (evict_oldest m) < length m
unfolding evict_oldest
length-evict_oldest [] h = h
length-evict_oldest ((k, e) ∷ m) h =
    let (f, q) =
      oldest_from_tracked k e.until m ((k, e) ∷ m) (e, unfold get in ground arith) kept in
    length-del-lt Bytes-discrete ((k, e) ∷ m) (oldest_from k e.until m) q
  where
    kept :
        (j : Bytes) (g : CoolEntry)
        → get Bytes-discrete m j ≡ some g
        → (f : CoolEntry) × (get Bytes-discrete ((k, e) ∷ m) j ≡ some f)
    kept j g q =
        unfold get in
        elim (Bytes-discrete k j) [ yes p ↦ (e, ground arith) | no p ↦ (g, ground arith) ]

-- A table whose cap is positive and that tracks no more roots than its cap does so after a trip.
pub length-trip-le :
    (c : CooldownTable) (root : Bytes) (now : ℕ)
    → 0 < c.cfg.cap
    → length c.entries ≤ c.cfg.cap
    → length (trip c root now).entries ≤ c.cfg.cap
unfolding trip make_room
length-trip-le c root now p h = ground (
  arith,
  length-evict_oldest c.entries,
  length-put-le Bytes-discrete (make_room c) root (record {
    until = now + next_window c.cfg (get Bytes-discrete c.entries root);
    window = next_window c.cfg (get Bytes-discrete c.entries root);
  }),
)

-- A trip keeps the root cold for the window that follows from its last one, and no longer.
pub cooling-trip :
    (c : CooldownTable) (root : Bytes) (now later : ℕ)
    → cooling (trip c root now) root later
      ≡ ltb later (now + next_window c.cfg (get Bytes-discrete c.entries root))
unfolding trip cooling
cooling-trip c root now later = rw (get-put_self Bytes-discrete (make_room c) root _)

-- The windows of successive trips of one root.
abbrev pub window_of : CooldownTable → Bytes → Option CoolEntry
window_of c root = get Bytes-discrete c.entries root

pub trips : CooldownTable → Bytes → List ℕ → CooldownTable
trips c root [] = c
trips c root (now ∷ times) = trips (trip c root now) root times

trip_cfg : (c : CooldownTable) (root : Bytes) (now : ℕ) → (trip c root now).cfg ≡ c.cfg
unfolding trip
trip_cfg c root now = refl

window_of-trip :
    (c : CooldownTable) (root : Bytes) (now : ℕ)
    → let w = next_window c.cfg (window_of c root) in
      window_of (trip c root now) root ≡ some (record { until = now + w; window = w })
unfolding trip
window_of-trip c root now = get-put_self Bytes-discrete (make_room c) root _

next_window-min :
    (cfg : CooldownConfig) (e : CoolEntry) (w : ℕ)
    → e.window ≡ min cfg.max_window w
    → next_window cfg (some e) ≡ min cfg.max_window (w * 2)
unfolding next_window
next_window-min cfg e w h = ground arith

double_pow : (w n : ℕ) → w * 2 * 2 ^ n ≡ w * 2 ^ suc n
double_pow w n = rw pow-succ' (mul_assoc w 2 (2 ^ n))

-- A root that is tracked and tripped again and again doubles its window each time, up to the
-- maximum.
pub trips_double :
    (c : CooldownTable) (root : Bytes) (times : List ℕ) (w : ℕ) {e : CoolEntry}
    → window_of c root ≡ some e
    → e.window ≡ min c.cfg.max_window w
    → (f : CoolEntry) × (window_of (trips c root times) root ≡ some f)
      × (f.window ≡ min c.cfg.max_window (w * 2 ^ length times))
unfolding trips
trips_double c root [] w {e} h q = (e, h, omega arith)
trips_double c root (now ∷ times) w {e} h q =
    let v = next_window c.cfg (window_of c root) in
    let (f, found, size) =
      trips_double (trip c root now) root times (w * 2) {e = record { until = now + v; window = v }}
        (window_of-trip c root now) (rw (h, trip_cfg c root now) (next_window-min c.cfg e w q)) in
    (f, found, rw (← double_pow w (length times), ← trip_cfg c root now) size)

-- Where no root is tracked twice, a sweep changes no answer about the present or the future: what
-- it forgets is no longer cold.
pub cooling-sweep :
    (c : CooldownTable) (root : Bytes) (now later : ℕ)
    → Unique Bytes-discrete c.entries
    → now ≤ later
    → cooling (sweep c now) root later ≡ cooling c root later
unfolding cooling sweep
cooling-sweep c root now later u h = elim (Option-cases (get Bytes-discrete c.entries root)) [
  | inl n ↦ rw (get-keep_if Bytes-discrete _ c.entries root u, n)
  | inr (e, s) ↦ rw (get-keep_if Bytes-discrete _ c.entries root u, s) (ground arith)
]
