-- ===== src/Client/Accountant.antt =====
-- `accountant` of pkg/client/backend/cache/accountant.go: the byte and entry budget over all the
-- caches, with one list from the most to the least recently used entry. An entry is known by an
-- identifier, which stands for its pointer. The callback of an eviction is the list of the evicted
-- entries.
pub mod Budget
use g_mountie.Prelude.{
  ℕ, zero, suc, ◌+◌, ◌-◌, ◌/◌, ◌<◌, Bool, true, false, ◌&&◌, ◌||◌, not, Option, none, some, List,
  [], ◌∷◌, ◌++◌, ◌==◌, ltb, length, keep_if, any, if◌then◌else◌, Bytes,
}

-- entry
pub record CacheEntry : Type 0 where
  pub id : ℕ
  pub key : Bytes
  pub size : ℕ

pub record Accountant : Type 0 where
  pub budget : ℕ  -- 0 disables the byte cap
  pub max_entries : ℕ  -- 0 disables the count cap
  pub used : ℕ
  pub lru : List CacheEntry  -- the most recently used first

abbrev pub new_accountant : ℕ → ℕ → Accountant
new_accountant budget max_entries = record {
  budget = budget;
  max_entries = max_entries;
  used = 0;
  lru = [];
}

abbrev pub min_entry_footprint_bytes : ℕ
min_entry_footprint_bytes = 128

unfoldable pub derive_max_entries : ℕ → ℕ
derive_max_entries memory_max_bytes = memory_max_bytes / min_entry_footprint_bytes

unfoldable pub over_limit : Accountant → Bool
over_limit a =
    (ltb 0 a.budget && ltb a.budget a.used)
    || (ltb 0 a.max_entries && ltb a.max_entries (length a.lru))

-- The list without its last entry, and the last entry.
abbrev pub before_last : CacheEntry → List CacheEntry → List CacheEntry
before_last e [] = []
before_last e (f ∷ l) = e ∷ before_last f l

abbrev pub last_of : CacheEntry → List CacheEntry → CacheEntry
last_of e [] = e
last_of e (f ∷ l) = last_of f l

-- The entry at the back of the list, and the accountant without it.
abbrev pub drop_back : Accountant → Option (CacheEntry × Accountant)
drop_back a = elim a.lru [
  | [] ↦ none
  | e ∷ l ↦
      some (last_of e l, record a { lru = before_last e l; used = a.used - (last_of e l).size })
]

-- `evictLocked`, with as much fuel as there are entries; and the entries it evicts, in order.
unfoldable pub evict : ℕ → Accountant → Accountant × List CacheEntry
unfolding over_limit
evict zero a = (a, [])
evict (suc n) a =
    if over_limit a
    then elim (drop_back a) [
      | none ↦ (a, [])
      | some (e, b) ↦ let (c, gone) = evict n b in (c, e ∷ gone)
    ]
    else (a, [])

unfoldable pub insert : Accountant → CacheEntry → Accountant × List CacheEntry
unfolding evict
insert a e = let b = record a { lru = e ∷ a.lru; used = a.used + e.size } in evict (length b.lru) b

-- The entry of an identifier, and the list without it.
unfoldable pub take_out : ℕ → List CacheEntry → Option (CacheEntry × List CacheEntry)
take_out id [] = none
take_out id (e ∷ l) =
    let rest = take_out id l in
    if e.id == id then some (e, l) else elim rest [ none ↦ none | some (f, m) ↦ some (f, e ∷ m) ]

unfoldable pub touch : Accountant → ℕ → Accountant
unfolding take_out
touch a id = elim (take_out id a.lru) [ none ↦ a | some (e, l) ↦ record a { lru = e ∷ l } ]

unfoldable pub remove : Accountant → ℕ → Accountant
unfolding take_out
remove a id = elim (take_out id a.lru) [
  | none ↦ a
  | some (e, l) ↦ record a { lru = l; used = a.used - e.size }
]
