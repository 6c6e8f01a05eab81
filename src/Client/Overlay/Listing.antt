-- ===== src/Client/Overlay/Listing.antt =====
-- `ListMerge` of pkg/client/backend/wal/overlay.go: a directory's listing with the pending creations
-- and without the pending deletions.
pub mod Children
use g_mountie.Prelude.{
  ℕ, ◌+◌, ◌≡◌, ◌≢◌, refl, ◌∙◌, ap, Bool, true, false, not, Option, none, some, List, [], ◌∷◌, ◌++◌,
  ◌==◌, ltb, any, keep_if, get, put, if◌then◌else◌, Bytes, Bytes-discrete, same, Unique, put-Unique,
  Bool-cases, inl, inr, arith, subst,
}
use mathlib.Core.Logic.{if_pos, if_neg}
use g_mountie.Paths.{slash, is_empty}
use g_mountie.Client.Overlay.{OverlayNode, Overlay, NodeAttr, node_attr}

-- backend.DirEntryPlus
pub record DirEntryPlus : Type 0 where
  pub ino : ℕ
  pub mode : ℕ
  pub name : Bytes
  pub attr : Option NodeAttr
  pub xattr_names : List Bytes
  pub xattr_listed : Bool

abbrev pub cons_parent : ℕ → Bytes → Option (Bytes × Bytes) → Option (Bytes × Bytes)
cons_parent c cs none = if c == slash then some ([], cs) else none
cons_parent c cs (some (parent, name)) = some (c ∷ parent, name)

-- The two sides of the last slash.
unfoldable pub cut_last : Bytes → Option (Bytes × Bytes)
cut_last [] = none
cut_last (c ∷ cs) = cons_parent c cs (cut_last cs)

abbrev pub or_bare : Bytes → Option (Bytes × Bytes) → Bytes × Bytes
or_bare p none = ([], p)
or_bare p (some pair) = pair

-- `splitPath2`
unfoldable pub split_path2 : Bytes → Bytes × Bytes
unfolding cut_last
split_path2 p = or_bare p (cut_last p)

abbrev pub join_path2 : Bytes → Bytes → Bytes
join_path2 parent name = if is_empty parent then name else parent ++ (slash ∷ name)

-- The pending children of a directory, by name.
unfoldable pub pending_children :
    Bytes → List (Bytes × OverlayNode) → List (Bytes × OverlayNode) → List (Bytes × OverlayNode)
pending_children dir children [] = children
pending_children dir children ((p, n) ∷ nodes) =
    let (parent, name) = split_path2 p in
    let more = if same parent dir then put Bytes-discrete children name n else children in
    pending_children dir more nodes

abbrev pub is_tomb : Option OverlayNode → Bool
is_tomb none = false
is_tomb (some n) = n.tomb

abbrev pub has_name : Bytes → List DirEntryPlus → Bool
has_name name entries = any (λ e. same e.name name) entries

abbrev pub pending_entry : Bytes → OverlayNode → DirEntryPlus
pending_entry name n = record {
  ino = n.ino;
  mode = n.mode;
  name = name;
  attr = some (node_attr n);
  xattr_names = [];
  xattr_listed = false;
}

abbrev pub created_entries : List DirEntryPlus → List (Bytes × OverlayNode) → List DirEntryPlus
created_entries base [] = []
created_entries base ((name, n) ∷ children) =
    let rest = created_entries base children in
    if n.tomb then rest else (if has_name name base then rest else pending_entry name n ∷ rest)

abbrev pub merge_children : List (Bytes × OverlayNode) → List DirEntryPlus → List DirEntryPlus
merge_children children base =
    keep_if (λ e. not (is_tomb (get Bytes-discrete children e.name))) base
    ++ created_entries base children

unfoldable pub list_merge : Overlay → Bytes → List DirEntryPlus → List DirEntryPlus
list_merge ov dir base = merge_children (pending_children dir [] ov.nodes) base

-- How often a name stands in a listing.
abbrev pub times : Bytes → List DirEntryPlus → ℕ
times name [] = 0
times name (e ∷ entries) = if same e.name name then times name entries + 1 else times name entries

-- What a listing owes to a name: what it was on the server, unless there is pending state.
abbrev pub owed : Option OverlayNode → ℕ → ℕ
owed none n = n
owed (some node) n = if node.tomb then 0 else (if ltb 0 n then n else 1)

pub times-append :
    (name : Bytes) (xs ys : List DirEntryPlus)
    → times name (xs ++ ys) ≡ times name xs + times name ys
times-append name [] ys = ground arith
times-append name (e ∷ xs) ys = ground (arith, times-append name xs ys)

pub pending_children-Unique :
    (dir : Bytes) (children nodes : List (Bytes × OverlayNode))
    → Unique Bytes-discrete children
    → Unique Bytes-discrete (pending_children dir children nodes)
unfolding pending_children
pending_children-Unique dir children [] u = u
pending_children-Unique dir children ((p, n) ∷ nodes) u =
    elim (Bool-cases (same (split_path2 p).0 dir)) [
      | inl y ↦
          rw (y, pending_children)
            (pending_children-Unique dir (put Bytes-discrete children (split_path2 p).1 n) nodes
              (put-Unique Bytes-discrete children (split_path2 p).1 n u))
      | inr m ↦ rw (m, pending_children) (pending_children-Unique dir children nodes u)
    ]

same_here : (a b : Bytes) → a ≡ b → same a b ≡ true
same_here a b q = ground (arith, q)

-- What the pending creations add.
abbrev pub added : Option OverlayNode → ℕ → ℕ
added none n = 0
added (some node) n = if node.tomb then 0 else (if ltb 0 n then 0 else 1)

pub owed_parts :
    (o : Option OverlayNode) (n : ℕ) → (if is_tomb o then 0 else n) + added o n ≡ owed o n
owed_parts none n = omega arith
owed_parts (some node) n = ground arith

own_times :
    (n : OverlayNode) (k name : Bytes) (listed : Bool) (rest : List DirEntryPlus)
    → times name rest ≡ 0
    → k ≡ name
    → times name (if n.tomb then rest else (if listed then rest else pending_entry k n ∷ rest))
      ≡ (if n.tomb then 0 else (if listed then 0 else 1))
own_times n k name listed rest e q = ground (arith, e, q)

other_times :
    (n : OverlayNode) (k name : Bytes) (listed : Bool) (rest : List DirEntryPlus)
    → k ≢ name
    → times name (if n.tomb then rest else (if listed then rest else pending_entry k n ∷ rest))
      ≡ times name rest
other_times n k name listed rest d = ground (arith, d)

pub kept_times :
    (children : List (Bytes × OverlayNode)) (name : Bytes) (base : List DirEntryPlus)
    → times name (keep_if (λ e. not (is_tomb (get Bytes-discrete children e.name))) base)
      ≡ (if is_tomb (get Bytes-discrete children name) then 0 else times name base)
kept_times children name [] = ground arith
kept_times children name (e ∷ base) = elim (Bytes-discrete e.name name) [
  | yes q ↦ elim (Bool-cases (is_tomb (get Bytes-discrete children name))) [
    | inl y ↦
        let z : is_tomb (get Bytes-discrete children e.name) ≡ true = rw q y in
        rw (z, kept_times children name base, y) refl
    | inr m ↦
        let z : is_tomb (get Bytes-discrete children e.name) ≡ false = rw q m in
        rw (z, same_here e.name name q, kept_times children name base, m) refl
  ]
  | no d ↦
      let apart : same e.name name ≡ false = ground (arith, d) in
      elim (Bool-cases (is_tomb (get Bytes-discrete children e.name))) [
        | inl y ↦ rw (y, apart) (kept_times children name base)
        | inr m ↦ rw (m, apart) (kept_times children name base)
      ]
]

has_name-times :
    (name : Bytes) (base : List DirEntryPlus) → has_name name base ≡ ltb 0 (times name base)
has_name-times name [] = ground arith
has_name-times name (e ∷ base) = ground (arith, has_name-times name base)

pub created_times :
    (children : List (Bytes × OverlayNode)) (name : Bytes) (base : List DirEntryPlus)
    → Unique Bytes-discrete children
    → times name (created_entries base children)
      ≡ added (get Bytes-discrete children name) (times name base)
unfolding get
created_times [] name base u = refl
created_times ((k, n) ∷ children) name base u =
    let rest = created_times children name base u.1 in
    elim (Bytes-discrete k name) [
      | yes q ↦
          let alone : get Bytes-discrete children name ≡ none =
            subst (λ j. get Bytes-discrete children j ≡ none) q u.0 in
          let listed : has_name k base ≡ ltb 0 (times name base) =
            ap (λ j. has_name j base) q ∙ has_name-times name base in
          rw (if_pos _ q, listed)
            (own_times n k name (ltb 0 (times name base)) _ (rw alone at rest) q)
      | no d ↦
          rw (if_neg _ d)
            (other_times n k name (has_name k base) (created_entries base children) d ∙ rest)
    ]
