-- ===== src/Delegation/Table/Ownership.antt =====
-- Who owns a path after a grant.
use g_mountie.Prelude.{
  ◌≡◌, inl, inr, refl, Bool, true, false, Option, none, some, List, [], ◌∷◌, ◌++◌, arith, any,
  Bool-cases, Option-cases, Bytes,
}
use g_mountie.Paths.{contains}
use g_mountie.Paths.Order.{contains-chain, contains_trans}
use g_mountie.Delegation.Table.{
  Entry, Table, Kept, Granted, owner_of, insert_string, sort_strings, grant_scan, grant,
}

-- Is the path in one of the carved subtrees?
abbrev pub carved : List Bytes → Bytes → Bool
carved excluded path = any (λ x. contains x path) excluded

insert-carved :
    (a : Bytes) (l : List Bytes) (path : Bytes)
    → carved (insert_string a l) path ≡ carved (a ∷ l) path
unfolding insert_string
insert-carved a [] path = refl
insert-carved a (b ∷ l) path = ground (arith, insert-carved a l path)

pub sort-carved : (l : List Bytes) (path : Bytes) → carved (sort_strings l) path ≡ carved l path
unfolding sort_strings
sort-carved [] path = refl
sort-carved (a ∷ l) path = ground (arith, sort-carved l path, insert-carved a (sort_strings l) path)

-- The owner alone.
abbrev pub owner_name : Table → Bytes → Option Bytes
owner_name t path = elim (owner_of t path) [ none ↦ none | some (o, _) ↦ some o ]

scan_owner_inside :
    (t : Table) (e : Entry) (path : Bytes) {k : Kept}
    → grant_scan t e.owner e.root ≡ some k
    → contains e.root path ≡ true
    → carved k.excluded path ≡ false
    → owner_name (k.entries ++ e ∷ []) path ≡ some e.owner
unfolding grant_scan owner_of
scan_owner_inside [] e path q c x = ground arith
scan_owner_inside (f ∷ t) e path {k} q c x = elim (Option-cases (grant_scan t e.owner e.root)) [
  | inl n ↦ absurd (ground arith)
  | inr (r, s) ↦ elim (Bool-cases (contains f.root path)) [
    | inl d ↦ elim (contains-chain e.root f.root path c d) [
      | inl u ↦ ground (arith, scan_owner_inside t e path s c)
      | inr v ↦ ground (arith, scan_owner_inside t e path s c)
    ]
    | inr d ↦ ground (arith, scan_owner_inside t e path s c)
  ]
]

-- After a grant, every path under the root and outside the carved subtrees belongs to the grantee.
pub grant_owns :
    (t : Table) (e : Entry) (path : Bytes) {g : Granted}
    → grant t e ≡ some g
    → contains e.root path ≡ true
    → carved g.excluded path ≡ false
    → owner_name g.table path ≡ some e.owner
unfolding grant
grant_owns t e path {g} q c x = elim (Option-cases (grant_scan t e.owner e.root)) [
  | inl n ↦ absurd (ground arith)
  | inr (k, s) ↦ ground (arith, sort-carved k.excluded path, scan_owner_inside t e path s c)
]

scan_owner_outside :
    (t : Table) (e : Entry) (path : Bytes) {k : Kept}
    → grant_scan t e.owner e.root ≡ some k
    → contains e.root path ≡ false
    → owner_of (k.entries ++ e ∷ []) path ≡ owner_of t path
unfolding grant_scan owner_of
scan_owner_outside [] e path q c = ground arith
scan_owner_outside (f ∷ t) e path {k} q c = elim (Option-cases (grant_scan t e.owner e.root)) [
  | inl n ↦ absurd (ground arith)
  | inr (r, s) ↦ ground (arith, scan_owner_outside t e path s c, contains_trans e.root f.root path)
]

-- A grant changes the owner of no path outside its root, nor the root that answers for the path.
pub grant_elsewhere :
    (t : Table) (e : Entry) (path : Bytes) {g : Granted}
    → grant t e ≡ some g
    → contains e.root path ≡ false
    → owner_of g.table path ≡ owner_of t path
unfolding grant
grant_elsewhere t e path {g} q c = elim (Option-cases (grant_scan t e.owner e.root)) [
  | inl n ↦ absurd (ground arith)
  | inr (k, s) ↦ ground (arith, scan_owner_outside t e path s c)
]
