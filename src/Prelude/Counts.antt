-- ===== src/Prelude/Counts.antt =====
-- How often a number stands in a list.
use Prim.Native.Nat.{ℕ, ◌+◌, ◌≤◌, ◌<◌}
use mathlib.Core.Path.{◌≡◌}
use mathlib.Core.Bool.{Bool, true, false}
use mathlib.Core.List.{List, [], ◌∷◌, ◌++◌}
use native.Mathlib.Omega.{arith}
use g_mountie.Prelude.Tests.{if◌then◌else◌, ◌==◌}

abbrev pub one_if : Bool → ℕ
one_if true = 1
one_if false = 0

abbrev pub count : ℕ → List ℕ → ℕ
count n [] = 0
count n (m ∷ l) = if m == n then count n l + 1 else count n l

abbrev pub remove_one : ℕ → List ℕ → List ℕ
remove_one n [] = []
remove_one n (m ∷ l) = if m == n then l else m ∷ remove_one n l

pub count-remove_one :
    (f n : ℕ) (l : List ℕ) → 0 < count n l → count f (remove_one n l) + one_if (n == f) ≡ count f l
count-remove_one f n [] h = omega (arith, h)
count-remove_one f n (m ∷ l) h = ground (arith, h, count-remove_one f n l)

pub count-remove_one-le :
    (f n : ℕ) (l : List ℕ) → count f l ≤ count f (remove_one n l) + one_if (n == f)
count-remove_one-le f n [] = omega arith
count-remove_one-le f n (m ∷ l) = ground (arith, count-remove_one-le f n l)

pub count-append : (f : ℕ) (l m : List ℕ) → count f (l ++ m) ≡ count f l + count f m
count-append f [] m = omega arith
count-append f (n ∷ l) m = ground (arith, count-append f l m)
