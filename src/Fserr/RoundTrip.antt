-- ===== src/Fserr/RoundTrip.antt =====
-- The two directions of the error mapping.
use g_mountie.Prelude.{
  ℕ, ◌≡◌, refl, sym, ap, ◌∙◌, ◌⊎◌, inl, inr, some, List, [], ◌∷◌, ◌==◌, arith, Bool-cases,
  Option-cases,
}
use g_mountie.Fserr.{FsError, fs_ok, to_errno, from_errno, find_error, mapped, eio}

-- A code survives the way over the wire: its errno maps back to it.
pub from_errno-to_errno : (e : FsError) → from_errno (to_errno e) ≡ e
unfolding from_errno to_errno
from_errno-to_errno fs_ok = refl
from_errno-to_errno _ = refl

-- Distinct codes have distinct errnos.
pub to_errno-injective : (e f : FsError) → to_errno e ≡ to_errno f → e ≡ f
to_errno-injective e f h = sym (from_errno-to_errno e) ∙ ap from_errno h ∙ from_errno-to_errno f

find_error_sound :
    (n : ℕ) (es : List FsError) {e : FsError} → find_error n es ≡ some e → to_errno e ≡ n
unfolding find_error
find_error_sound n [] h = ground arith
find_error_sound n (x ∷ es) {e} h = elim (Bool-cases (to_errno x == n)) [
  | inl y ↦ ground (arith, y)
  | inr y ↦ find_error_sound n es (rw y at h)
]

-- An errno comes back as it was, or it is one that the table lacks and becomes EIO. No errno but 0
-- is taken for success.
pub to_errno-from_errno :
    (n : ℕ)
    → ((to_errno (from_errno n) ≡ n) ⊎ (from_errno n ≡ eio)) × (from_errno n ≡ fs_ok → n ≡ 0)
unfolding from_errno to_errno
to_errno-from_errno n = elim (Option-cases (find_error n mapped)) [
  | inl z ↦ elim (Bool-cases (n == 0)) [
    | inl y ↦ rw y (inl (ground (arith, y)), λ _. ground (arith, y))
    | inr y ↦ rw (y, z) (inr refl, λ q. cc)
  ]
  | inr (e, z) ↦ elim (Bool-cases (n == 0)) [
    | inl y ↦ rw y (inl (ground (arith, y)), λ _. ground (arith, y))
    | inr y ↦
        rw (y, z)
          (
            inl (find_error_sound n mapped z),
            λ q. sym (find_error_sound n mapped z) ∙ ap to_errno q,
          )
  ]
]
