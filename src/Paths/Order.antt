-- ===== src/Paths/Order.antt =====
-- Containment is a preorder, and the roots that contain one path form a chain.
use g_mountie.Prelude.{
  ℕ, ◌≡◌, ◌⊎◌, refl, Bool, true, false, ◌&&◌, ◌||◌, [], ◌∷◌, ◌++◌, arith, ◌==◌, Bytes, same,
  same_comm,
}
use g_mountie.Paths.{slash, has_prefix, is_empty, contains, subtree_pred}

-- The path ends here, or goes on with a new segment.
abbrev at_boundary : Bytes → Bool
at_boundary [] = true
at_boundary (c ∷ _) = c == slash

inside : Bytes → Bytes → Bool
inside [] p = at_boundary p
inside (x ∷ a) [] = false
inside (x ∷ a) (c ∷ p) = (x == c) && inside a p

inside-same-has_prefix : (a p : Bytes) → inside a p ≡ (same a p || has_prefix p (a ++ slash ∷ []))
unfolding inside has_prefix
inside-same-has_prefix [] [] = ground arith
inside-same-has_prefix [] (c ∷ p) = ground arith
inside-same-has_prefix (x ∷ a) [] = ground arith
inside-same-has_prefix (x ∷ a) (c ∷ p) = ground (arith, inside-same-has_prefix a p)

contains-inside : (a p : Bytes) → contains a p ≡ (is_empty a || inside a p)
unfolding contains
contains-inside a p = ground (arith, inside-same-has_prefix a p)

inside_refl : (a : Bytes) → inside a a ≡ true
unfolding inside
inside_refl [] = refl
inside_refl (x ∷ a) = ground (arith, inside_refl a)

inside_trans : (a b c : Bytes) → inside a b ≡ true → inside b c ≡ true → inside a c ≡ true
unfolding inside
inside_trans [] [] c h k = k
inside_trans [] (y ∷ b) [] h k = ground arith
inside_trans [] (y ∷ b) (z ∷ c) h k = ground arith
inside_trans (x ∷ a) [] c h k = ground arith
inside_trans (x ∷ a) (y ∷ b) [] h k = ground arith
inside_trans (x ∷ a) (y ∷ b) (z ∷ c) h k = ground (arith, inside_trans a b c)

inside-chain :
    (a b p : Bytes)
    → inside a p ≡ true
    → inside b p ≡ true
    → (inside a b ≡ true) ⊎ (inside b a ≡ true)
unfolding inside
inside-chain [] [] p h k = ground arith
inside-chain [] (y ∷ b) [] h k = ground arith
inside-chain [] (y ∷ b) (z ∷ p) h k = ground arith
inside-chain (x ∷ a) [] [] h k = ground arith
inside-chain (x ∷ a) [] (z ∷ p) h k = ground arith
inside-chain (x ∷ a) (y ∷ b) [] h k = ground arith
inside-chain (x ∷ a) (y ∷ b) (z ∷ p) h k = ground (arith, inside-chain a b p)

inside-nil : (a : Bytes) → inside a [] ≡ true → a ≡ []
unfolding inside
inside-nil [] h = refl
inside-nil (x ∷ a) h = ground arith

pub contains_refl : (a : Bytes) → contains a a ≡ true
contains_refl a = ground (arith, contains-inside a a, inside_refl a)

pub contains_trans :
    (a b c : Bytes) → contains a b ≡ true → contains b c ≡ true → contains a c ≡ true
contains_trans [] b c h k = ground (arith, contains-inside [] c)
contains_trans (x ∷ a) [] c h k = ground (arith, contains-inside (x ∷ a) [], inside-nil (x ∷ a))
contains_trans (x ∷ a) (y ∷ b) c h k = ground (
  arith,
  contains-inside (x ∷ a) (y ∷ b),
  contains-inside (y ∷ b) c,
  contains-inside (x ∷ a) c,
  inside_trans (x ∷ a) (y ∷ b) c,
)

-- Two roots that contain one path are comparable.
pub contains-chain :
    (a b p : Bytes)
    → contains a p ≡ true
    → contains b p ≡ true
    → (contains a b ≡ true) ⊎ (contains b a ≡ true)
contains-chain a b p h k = ground (
  arith,
  contains-inside a p,
  contains-inside b p,
  contains-inside a b,
  contains-inside b a,
  inside-chain a b p,
)

-- The cache's subtree test is the server's containment at a path that is not the mount root.
pub subtree_pred-contains : (x : ℕ) (a k : Bytes) → subtree_pred (x ∷ a) k ≡ contains (x ∷ a) k
unfolding subtree_pred contains
subtree_pred-contains x a k = rw (same_comm k (x ∷ a))
