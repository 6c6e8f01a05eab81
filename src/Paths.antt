-- ===== src/Paths.antt =====
-- Path containment: `contains` of pkg/server/delegation/table.go and
-- pkg/client/backend/delegation/manager.go, and `subtreePred` of
-- pkg/client/backend/cache/prefix_invalidate.go.
pub mod Order
use g_mountie.Prelude.{
  ℕ, ◌≡◌, refl, Bool, true, false, ◌&&◌, ◌||◌, [], ◌∷◌, ◌++◌, arith, ◌==◌, Bytes, Bytes-discrete,
  same,
}

abbrev pub slash : ℕ
slash = b'/'

-- strings.HasPrefix(s, p)
unfoldable pub has_prefix : Bytes → Bytes → Bool
has_prefix s [] = true
has_prefix [] (y ∷ p) = false
has_prefix (x ∷ s) (y ∷ p) = (x == y) && has_prefix s p

abbrev pub is_empty : Bytes → Bool
is_empty [] = true
is_empty (_ ∷ _) = false

-- The subtree test of the client cache: the path itself or a descendant.
unfoldable pub subtree_pred : Bytes → Bytes → Bool
unfolding has_prefix
subtree_pred path k = same k path || has_prefix k (path ++ slash ∷ [])

-- Root `a` contains path `b`; the empty root contains all.
unfoldable pub contains : Bytes → Bytes → Bool
unfolding has_prefix
contains a b = is_empty a || (same a b || has_prefix b (a ++ slash ∷ []))
