-- ===== src/Prelude.antt =====
-- The names that the other modules share: the libraries', passed on, and those of two children.
-- Go strings are lists of bytes.
mod Tests
mod Lists
mod Maps
mod Counts
pub use Tests.*
pub use Lists.*
pub use Counts.*
unfoldable pub use Maps.{get, put, del}
pub use Maps.{
  get-put, get-put_self, get-put_ne, get-del_self, get-del_ne, del_absent, length-put-le,
  length-del-le, length-del-lt, Unique, put-Unique, del-Unique, keep_if-Unique, passing,
  get-keep_if,
}
pub use mathlib.Core.Logic.{ite}
pub use Prim.Native.Nat.{ℕ, zero, suc, ◌+◌, ◌-◌, ◌*◌, ◌/◌, ◌%◌, ◌^◌, ◌≤◌, ◌<◌, max, min}
pub use mathlib.Core.Path.{◌≡◌, refl, sym, ap, subst, ◌∙◌}
pub use mathlib.Core.Logic.{◌≢◌, ◌↔◌, ◌⊎◌, inl, inr}
pub use mathlib.Core.Bool.{Bool, true, false, ◌&&◌, ◌||◌, not}
pub use mathlib.Core.Option.{Option, none, some}
pub use mathlib.Core.List.{List, [], ◌∷◌, ◌++◌, map}
pub use native.Mathlib.Omega.{arith}
unfoldable pub use native.Mathlib.Decide.{ℕ_discrete}

abbrev pub Bytes : Type 0
Bytes = List ℕ

unfoldable pub Bytes-discrete : Discrete Bytes
Bytes-discrete = hlevel ℕ_discrete

-- `a == b` on Go strings.
abbrev pub same : Bytes → Bytes → Bool
same a b = elim (Bytes-discrete a b) [ yes _ ↦ true | no _ ↦ false ]

pub same→eq : (a b : Bytes) → same a b ≡ true → a ≡ b
same→eq a b h = ground arith

pub same_refl : (a : Bytes) → same a a ≡ true
same_refl a = ground arith

pub same_comm : (a b : Bytes) → same a b ≡ same b a
same_comm a b = elim (Bool-cases (same a b)) [
  | inl e ↦ rw (same→eq a b e)
  | inr n ↦ elim (Bool-cases (same b a)) [ inl e ↦ rw (same→eq b a e) | inr m ↦ rw (n, m) ]
]

-- How often a string stands in a list.
abbrev pub count_bytes : Bytes → List Bytes → ℕ
count_bytes b [] = 0
count_bytes b (c ∷ l) = if same c b then count_bytes b l + 1 else count_bytes b l

abbrev pub remove_bytes : Bytes → List Bytes → List Bytes
remove_bytes b [] = []
remove_bytes b (c ∷ l) = if same c b then l else c ∷ remove_bytes b l

pub count_bytes-remove_bytes :
    (a b : Bytes) (l : List Bytes)
    → 0 < count_bytes b l
    → count_bytes a (remove_bytes b l) + one_if (same b a) ≡ count_bytes a l
count_bytes-remove_bytes a b [] h = omega (arith, h)
count_bytes-remove_bytes a b (c ∷ l) h = ground (arith, h, count_bytes-remove_bytes a b l)
