-- ===== src/Delegation/Table.antt =====
-- `delegationTable` of pkg/server/delegation/table.go: the containment index of delegated roots.
-- A method that changes the table returns the new one.
pub mod Ownership
pub mod Order
pub mod Carving
use g_mountie.Prelude.{
  ℕ, Bool, true, false, ◌&&◌, not, Option, none, some, List, [], ◌∷◌, ◌++◌, ◌==◌, ltb, length,
  keep_if, if◌then◌else◌, Bytes, Bytes-discrete, same,
}
use g_mountie.Paths.{contains}

pub record Entry : Type 0 where
  pub owner : Bytes  -- session id
  pub root : Bytes
  pub principal : Bytes
  pub volume : Bytes
  pub epoch : Bytes
  pub gen : ℕ  -- uint64; 0 is untagged

abbrev pub Table : Type 0
Table = List Entry

abbrev pub new_table : Table
new_table = []

abbrev pub size : Table → ℕ
size t = length t

-- The first entry whose root contains the path: its owner and its root.
unfoldable pub owner_of : Table → Bytes → Option (Bytes × Bytes)
owner_of [] path = none
owner_of (e ∷ t) path = if contains e.root path then some (e.owner, e.root) else owner_of t path

-- The order of Go strings, by bytes.
unfoldable pub string_le : Bytes → Bytes → Bool
string_le [] b = true
string_le (x ∷ a) [] = false
string_le (x ∷ a) (y ∷ b) = let rest = string_le a b in if x == y then rest else ltb x y

unfoldable pub insert_string : Bytes → List Bytes → List Bytes
unfolding string_le
insert_string a [] = a ∷ []
insert_string a (b ∷ l) = if string_le a b then a ∷ b ∷ l else b ∷ insert_string a l

-- sort.Strings
unfoldable pub sort_strings : List Bytes → List Bytes
unfolding insert_string
sort_strings [] = []
sort_strings (a ∷ l) = insert_string a (sort_strings l)

pub record Kept : Type 0 where
  pub entries : Table
  pub excluded : List Bytes

abbrev pub keeping : Entry → Option Kept → Option Kept
keeping e none = none
keeping e (some k) = some (record k { entries = e ∷ k.entries })

abbrev pub carving : Entry → Option Kept → Option Kept
carving e none = none
carving e (some k) = some (record { entries = e ∷ k.entries; excluded = e.root ∷ k.excluded })

-- The loop of `grant`: what is kept and what is carved out, or `none` for a denial.
unfoldable pub grant_scan : Table → Bytes → Bytes → Option Kept
grant_scan [] owner root = some (record { entries = []; excluded = [] })
grant_scan (e ∷ t) owner root =
    let rest = grant_scan t owner root in
    if same e.owner owner && contains root e.root
    then rest
    else (if not (same e.owner owner) && contains e.root root
        then none
        else (if not (same e.owner owner) && contains root e.root
            then carving e rest
            else keeping e rest))

pub record Granted : Type 0 where
  pub root : Bytes
  pub excluded : List Bytes
  pub table : Table

abbrev pub granting : Entry → Option Kept → Option Granted
granting e none = none
granting e (some k) =
    some (record { root = e.root; excluded = sort_strings k.excluded; table = k.entries ++ e ∷ [] })

-- `none` is the denial, which leaves the table as it was. The new entry is given whole.
unfoldable pub grant : Table → Entry → Option Granted
unfolding grant_scan
grant t e = granting e (grant_scan t e.owner e.root)

unfoldable pub entry_for_root : Table → Bytes → Option Entry
entry_for_root [] root = none
entry_for_root (e ∷ t) root = if same e.root root then some e else entry_for_root t root

unfoldable pub release : Table → Bytes → Table
release t root = keep_if (λ e. not (same e.root root)) t

-- The dropped entries, and those that stay.
unfoldable pub drain_owner : Table → Bytes → List Entry × Table
drain_owner t owner =
    (keep_if (λ e. same e.owner owner) t, keep_if (λ e. not (same e.owner owner)) t)

unfoldable pub release_owner : Table → Bytes → Table
unfolding drain_owner
release_owner t owner = (drain_owner t owner).1
