-- ===== src/Delegation/Table/Order.antt =====
-- The order of the entries: an entry is covered by an earlier one only of its own owner.
use g_mountie.Prelude.{
  ◌≡◌, ◌⊎◌, inl, inr, Bool, true, not, some, List, [], ◌∷◌, ◌++◌, arith, All, keep_if, Bool-cases,
  Option-cases, Bytes, same,
}
use g_mountie.Paths.{contains}
use g_mountie.Paths.Order.{contains-chain}
use g_mountie.Delegation.Table.{
  Entry, Table, Kept, Granted, owner_of, grant_scan, grant, release, drain_owner,
}

-- `e` may stand before `f`.
abbrev pub Before : Entry → Entry → Type 0
Before e f = contains e.root f.root ≡ true → e.owner ≡ f.owner

abbrev pub Ordered : Table → Type 0
Ordered [] = Unit
Ordered (e ∷ t) = All (Before e) t × Ordered t

All-keep_if {ℓ κ} :
    {A : Type ℓ} (P : A → Type κ) (p : A → Bool) (xs : List A) → All P xs → All P (keep_if p xs)
All-keep_if P p [] h = tt
All-keep_if P p (x ∷ xs) h = ground (arith, All-keep_if P p xs h.1)

keep_if-Ordered : (p : Entry → Bool) (t : Table) → Ordered t → Ordered (keep_if p t)
keep_if-Ordered p [] h = tt
keep_if-Ordered p (e ∷ t) h =
    ground (arith, All-keep_if (Before e) p t h.0, keep_if-Ordered p t h.1)

-- A later entry inside the path's first match has the same owner; so whatever else covers the
-- path has the same owner or covers the match.
abbrev pub Yields : Bytes → Bytes → Bytes → Entry → Type 0
Yields path owner root e =
    contains e.root path ≡ true → (e.owner ≡ owner) ⊎ (contains e.root root ≡ true)

behind_Yields :
    (path : Bytes) (e : Entry) (t : Table)
    → contains e.root path ≡ true
    → All (Before e) t
    → All (Yields path e.owner e.root) t
behind_Yields path e [] c h = tt
behind_Yields path e (f ∷ t) c h =
    ((λ d. ground (arith, contains-chain e.root f.root path c d)), behind_Yields path e t c h.1)

-- The owner that `owner_of` answers is the owner of the most specific root that contains the path:
-- in an ordered table every entry that covers the path belongs to the same owner or contains the
-- root that is answered.
pub owner_of_most_specific :
    (t : Table) (path owner root : Bytes)
    → Ordered t
    → owner_of t path ≡ some (owner, root)
    → All (Yields path owner root) t
unfolding owner_of
owner_of_most_specific [] path owner root h q = tt
owner_of_most_specific (e ∷ t) path owner root h q = elim (Bool-cases (contains e.root path)) [
  | inl c ↦ ((λ _. inl (ground arith)), found (ground arith) (behind_Yields path e t c h.0))
  | inr c ↦
      ((λ d. absurd (ground arith)), owner_of_most_specific t path owner root h.1 (ground arith))
]
  where
    found :
        (e.owner ≡ owner) × (e.root ≡ root)
        → All (Yields path e.owner e.root) t
        → All (Yields path owner root) t
    found (p, r) a = rw (← p, ← r) a

pub release-Ordered : (t : Table) (root : Bytes) → Ordered t → Ordered (release t root)
unfolding release
release-Ordered t root h = keep_if-Ordered (λ e. not (same e.root root)) t h

pub drain_owner-Ordered : (t : Table) (owner : Bytes) → Ordered t → Ordered (drain_owner t owner).1
unfolding drain_owner
drain_owner-Ordered t owner h = keep_if-Ordered (λ e. not (same e.owner owner)) t h

scan-All :
    (P : Entry → Type 0) (t : Table) (owner root : Bytes) {k : Kept}
    → grant_scan t owner root ≡ some k
    → All P t
    → All P k.entries
unfolding grant_scan
scan-All P [] owner root q h = ground arith
scan-All P (e ∷ t) owner root {k} q h = elim (Option-cases (grant_scan t owner root)) [
  | inl n ↦ absurd (ground arith)
  | inr (r, s) ↦ ground (arith, scan-All P t owner root s h.1)
]

scan-Ordered :
    (t : Table) (owner root : Bytes) {k : Kept}
    → grant_scan t owner root ≡ some k
    → Ordered t
    → Ordered k.entries
unfolding grant_scan
scan-Ordered [] owner root q h = ground arith
scan-Ordered (e ∷ t) owner root {k} q h = elim (Option-cases (grant_scan t owner root)) [
  | inl n ↦ absurd (ground arith)
  | inr (r, s) ↦
      ground (arith, scan-Ordered t owner root s h.1, scan-All (Before e) t owner root s h.0)
]

-- What a scan keeps covers the requested root only under the same owner.
scan_allows :
    (t : Table) (owner root : Bytes) {k : Kept}
    → grant_scan t owner root ≡ some k
    → All (λ e. contains e.root root ≡ true → e.owner ≡ owner) k.entries
unfolding grant_scan
scan_allows [] owner root q = ground arith
scan_allows (e ∷ t) owner root {k} q = elim (Option-cases (grant_scan t owner root)) [
  | inl n ↦ absurd (ground arith)
  | inr (r, s) ↦ ground (arith, scan_allows t owner root s)
]

append-Ordered :
    (t : Table) (e : Entry)
    → Ordered t
    → All (λ f. contains f.root e.root ≡ true → f.owner ≡ e.owner) t
    → Ordered (t ++ e ∷ [])
append-Ordered [] e h a = (tt, tt)
append-Ordered (f ∷ t) e h a = (All-append (Before f) t e h.0 a.0, append-Ordered t e h.1 a.1)
  where
    All-append : (P : Entry → Type 0) (u : Table) (x : Entry) → All P u → P x → All P (u ++ x ∷ [])
    All-append P [] x hu hx = (hx, tt)
    All-append P (y ∷ u) x hu hx = (hu.0, All-append P u x hu.1 hx)

-- Every operation of the table keeps its entries ordered.
pub grant-Ordered :
    (t : Table) (e : Entry) {g : Granted} → grant t e ≡ some g → Ordered t → Ordered g.table
unfolding grant
grant-Ordered t e {g} q h = elim (Option-cases (grant_scan t e.owner e.root)) [
  | inl n ↦ absurd (ground arith)
  | inr (k, s) ↦ ground (
    arith,
    append-Ordered k.entries e (scan-Ordered t e.owner e.root s h) (scan_allows t e.owner e.root s),
  )
]
