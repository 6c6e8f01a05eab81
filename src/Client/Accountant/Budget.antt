-- ===== src/Client/Accountant/Budget.antt =====
-- The caps hold after each insertion, and the byte count is that of the entries.
use g_mountie.Prelude.{
  ℕ, zero, suc, ◌+◌, ◌-◌, ◌≤◌, ◌<◌, ◌≡◌, refl, sym, ap, ◌∙◌, false, some, List, [], ◌∷◌, ◌++◌,
  length, arith, inl, inr, Bool-cases, Option-cases,
}
use g_mountie.Client.Accountant.{
  CacheEntry, Accountant, over_limit, before_last, last_of, evict, insert, take_out, touch, remove,
}

abbrev pub total : List CacheEntry → ℕ
total [] = 0
total (e ∷ l) = e.size + total l

-- The byte count is that of the entries.
abbrev pub Accounted : Accountant → Type 0
Accounted a = a.used ≡ total a.lru

total-before_last :
    (e : CacheEntry) (l : List CacheEntry)
    → total (before_last e l) + (last_of e l).size ≡ e.size + total l
total-before_last e [] = omega arith
total-before_last e (f ∷ l) = omega (arith, total-before_last f l)

length-before_last : (e : CacheEntry) (l : List CacheEntry) → length (before_last e l) ≡ length l
length-before_last e [] = refl
length-before_last e (f ∷ l) = omega (arith, length-before_last f l)

before_last_append :
    (e : CacheEntry) (l : List CacheEntry) → before_last e l ++ last_of e l ∷ [] ≡ e ∷ l
before_last_append e [] = refl
before_last_append e (f ∷ l) = ap (λ m. e ∷ m) (before_last_append f l)

append_nil : (xs : List CacheEntry) → xs ++ [] ≡ xs
append_nil [] = refl
append_nil (x ∷ xs) = ap (λ l. x ∷ l) (append_nil xs)

append_assoc : (xs ys zs : List CacheEntry) → (xs ++ ys) ++ zs ≡ xs ++ (ys ++ zs)
append_assoc [] ys zs = refl
append_assoc (x ∷ xs) ys zs = ap (λ l. x ∷ l) (append_assoc xs ys zs)

-- What an eviction makes of an accountant `a`: both caps hold, the count is right, and the list is
-- a first part of what it was, so it is the least recently used entries that are gone.
abbrev pub Evicted : Accountant → Accountant → Type 0
Evicted a b =
    (0 < a.budget → b.used ≤ a.budget)
    × (0 < a.max_entries → length b.lru ≤ a.max_entries)
    × (b.used ≡ total b.lru)
    × ((gone : List CacheEntry) × (a.lru ≡ b.lru ++ gone))

within_limits :
    (a : Accountant)
    → over_limit a ≡ false
    → (0 < a.budget → a.used ≤ a.budget) × (0 < a.max_entries → length a.lru ≤ a.max_entries)
unfolding over_limit
within_limits a h = (λ p. ground (arith, h, p), λ p. ground (arith, h, p))

evict-Evicted :
    (n budget max_entries used : ℕ) (l : List CacheEntry)
    → length l ≤ n
    → used ≡ total l
    → let a : Accountant = record {
      budget = budget;
      max_entries = max_entries;
      used = used;
      lru = l;
    } in
      Evicted a (evict n a).0
unfolding evict
evict-Evicted zero budget max_entries used [] h u =
    (λ p. omega (arith, u), λ p. omega arith, u, ([], refl))
evict-Evicted zero budget max_entries used (e ∷ l) h u = absurd (omega (arith, h))
evict-Evicted (suc n) budget max_entries used [] h u =
    let a : Accountant = record {
      budget = budget;
      max_entries = max_entries;
      used = used;
      lru = [];
    } in
    elim (Bool-cases (over_limit a)) [
      | inl y ↦ rw y (λ p. omega (arith, u), λ p. omega arith, u, ([], refl))
      | inr n ↦ rw n ((within_limits a n).0, (within_limits a n).1, u, ([], refl))
    ]
evict-Evicted (suc n) budget max_entries used (e ∷ l) h u =
    let sizes = total-before_last e l in
    let (bytes, count, accounted, (gone, split)) =
      evict-Evicted n budget max_entries (used - (last_of e l).size) (before_last e l)
        (omega (arith, h, length-before_last e l)) (omega (arith, u, sizes)) in
    let a : Accountant = record {
      budget = budget;
      max_entries = max_entries;
      used = used;
      lru = e ∷ l;
    } in
    elim (Bool-cases (over_limit a)) [
      | inl y ↦ rw y (
        bytes,
        count,
        accounted,
        (
          gone ++ last_of e l ∷ [],
          sym (before_last_append e l)
              ∙ ap (λ m. m ++ last_of e l ∷ []) split
              ∙ append_assoc _ gone (last_of e l ∷ []),
        ),
      )
      | inr m ↦
          rw m ((within_limits a m).0, (within_limits a m).1, u, ([], sym (append_nil (e ∷ l))))
    ]

-- After an insertion into an accountant whose byte count is that of its entries, both caps hold,
-- where they are set; the byte count is that of the entries; and the entries that are left are
-- the most recently used of the new entry and the old ones.
pub insert-Evicted :
    (a : Accountant) (e : CacheEntry)
    → Accounted a
    → Evicted (record a { lru = e ∷ a.lru; used = a.used + e.size }) (insert a e).0
unfolding insert
insert-Evicted a e h =
    evict-Evicted (length (e ∷ a.lru)) a.budget a.max_entries (a.used + e.size) (e ∷ a.lru)
      (omega arith) (omega (arith, h))

take_out-total :
    (id : ℕ) (l m : List CacheEntry) (e : CacheEntry)
    → take_out id l ≡ some (e, m)
    → (total m + e.size ≡ total l) × (length l ≡ suc (length m)) × (e.id ≡ id)
unfolding take_out
take_out-total id [] m e h = ground arith
take_out-total id (f ∷ l) m e h = elim (Option-cases (take_out id l)) [
  | inl z ↦ ground (arith, z)
  | inr ((g, k), z) ↦ ground (arith, z, take_out-total id l k g z)
]

-- A touch and a removal keep the byte count that of the entries; a touch changes neither the count
-- nor the number of entries.
pub touch-remove-Accounted :
    (a : Accountant) (id : ℕ)
    → Accounted a
    → Accounted (touch a id)
      × Accounted (remove a id)
      × ((touch a id).used ≡ a.used)
      × (length (touch a id).lru ≡ length a.lru)
unfolding touch remove
touch-remove-Accounted a id h = elim (Option-cases (take_out id a.lru)) [
  | inl z ↦ rw (z, touch, remove) (h, h, refl, refl)
  | inr ((e, l), z) ↦
      let (sizes, count, _) = take_out-total id a.lru l e z in
      rw (z, touch, remove)
        (omega (arith, h, sizes), omega (arith, h, sizes), refl, omega (arith, count))
]
