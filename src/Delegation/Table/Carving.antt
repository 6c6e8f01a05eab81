-- ===== src/Delegation/Table/Carving.antt =====
-- What a grant carves out, and what its absorption of the owner's own roots can lose.
use g_mountie.Prelude.{
  ◌≡◌, ◌≢◌, inl, inr, true, false, Option, none, some, [], ◌∷◌, ◌++◌, arith, All, Bool-cases,
  Option-cases, Bytes,
}
use g_mountie.Paths.{contains}
use g_mountie.Paths.Order.{contains-chain, contains_trans}
use g_mountie.Delegation.Table.{
  Entry, Table, Kept, Granted, owner_of, insert_string, sort_strings, grant_scan, grant,
}
use g_mountie.Delegation.Table.Order.{Before, Ordered}
use g_mountie.Delegation.Table.Ownership.{carved, sort-carved, owner_name}

-- A carved root below an entry of the grantee that the scan kept would break the order.
scan_spares :
    (t : Table) (e f : Entry) (path : Bytes) {k : Kept}
    → grant_scan t e.owner e.root ≡ some k
    → All (Before f) t
    → f.owner ≡ e.owner
    → contains e.root f.root ≡ false
    → contains f.root path ≡ true
    → carved k.excluded path ≡ false
unfolding grant_scan
scan_spares [] e f path q b o n c = ground arith
scan_spares (x ∷ t) e f path {k} q b o n c = elim (Option-cases (grant_scan t e.owner e.root)) [
  | inl z ↦ absurd (ground arith)
  | inr (r, s) ↦ elim (Bool-cases (contains x.root path)) [
    | inl d ↦ elim (contains-chain f.root x.root path c d) [
      | inl u ↦ ground (arith, scan_spares t e f path s b.1 o n c, b.0 u)
      | inr v ↦
          ground (arith, scan_spares t e f path s b.1 o n c, contains_trans e.root x.root f.root)
    ]
    | inr d ↦ ground (arith, scan_spares t e f path s b.1 o n c)
  ]
]

-- The path belongs to somebody else.
abbrev pub Foreign : Bytes → Option Bytes → Type 0
Foreign owner none = ⊥
Foreign owner (some o) = o ≢ owner

scan_owner_carved :
    (t : Table) (e : Entry) (path : Bytes) {k : Kept}
    → Ordered t
    → grant_scan t e.owner e.root ≡ some k
    → carved k.excluded path ≡ true
    → Foreign e.owner (owner_name (k.entries ++ e ∷ []) path)
unfolding grant_scan owner_of
scan_owner_carved [] e path h q c = absurd (ground arith)
scan_owner_carved (f ∷ t) e path {k} h q c = elim (Option-cases (grant_scan t e.owner e.root)) [
  | inl z ↦ absurd (ground arith)
  | inr (r, s) ↦ ground (
    arith,
    scan_owner_carved t e path h.1 s,
    scan_spares t e f path s h.0,
    contains_trans e.root f.root path,
  )
]

-- In an ordered table, a carved subtree belongs after the grant to another owner.
pub grant_carves :
    (t : Table) (e : Entry) (path : Bytes) {g : Granted}
    → Ordered t
    → grant t e ≡ some g
    → carved g.excluded path ≡ true
    → Foreign e.owner (owner_name g.table path)
unfolding grant
grant_carves t e path {g} h q c = elim (Option-cases (grant_scan t e.owner e.root)) [
  | inl n ↦ absurd (ground arith)
  | inr (k, s) ↦ ground (arith, scan_owner_carved t e path h s, sort-carved k.excluded path)
]

-- Let owner `o` hold a root inside a root of `x`, carved out when `x` was granted it. If `o` then
-- is granted a root around both, the table forgets the inner root, and its paths go to `x`, who was
-- not recalled from `o` nor `o` from them.
pub absorbed_root_lost :
    (o x e : Entry) (path : Bytes)
    → o.owner ≢ x.owner
    → e.owner ≡ o.owner
    → contains e.root x.root ≡ true
    → contains x.root e.root ≡ false
    → contains x.root o.root ≡ true
    → contains o.root path ≡ true
    → let t = o ∷ x ∷ [] in
      (owner_name t path ≡ some o.owner)
      × (g : Granted) × (grant t e ≡ some g)
      × (owner_name g.table path ≡ some x.owner)
unfolding grant grant_scan owner_of sort_strings insert_string
absorbed_root_lost o x e path d s a b c p = (
  ground arith,
  (record { root = e.root; excluded = x.root ∷ []; table = x ∷ e ∷ [] }),
  ground (arith, contains_trans e.root x.root o.root),
  ground (arith, contains_trans x.root o.root path),
)
