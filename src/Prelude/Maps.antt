-- ===== src/Prelude/Maps.antt =====
-- Go maps as association lists over keys with decidable equality. `put` replaces an entry in its
-- place or appends one; `del` deletes a key. The iteration order of a Go map is the list's order.
use g_mountie.Prelude.Tests.{if◌then◌else◌, Bool-cases}
use g_mountie.Prelude.Lists.{length, keep_if}
use Prim.Native.Nat.{◌+◌, ◌≤◌, ◌<◌}
use mathlib.Core.Path.{◌≡◌, refl, sym, subst, ◌∙◌}
use mathlib.Core.Logic.{◌≢◌, ite, if_pos, if_neg, inl, inr}
use mathlib.Core.Bool.{Bool}
use mathlib.Core.Option.{Option, none, some}
use mathlib.Core.List.{List, [], ◌∷◌}
use native.Mathlib.Omega.{arith}

module _ {ℓ} {K V : Type ℓ} (dec : Discrete K) where
  unfoldable pub get : List (K × V) → K → Option V
  get [] k = none
  get ((j, v) ∷ m) k = ite (dec j k) (some v) (get m k)

  unfoldable pub put : List (K × V) → K → V → List (K × V)
  put [] k v = (k, v) ∷ []
  put ((j, w) ∷ m) k v = ite (dec j k) ((k, v) ∷ m) ((j, w) ∷ put m k v)

  unfoldable pub del : List (K × V) → K → List (K × V)
  del [] k = []
  del ((j, v) ∷ m) k = let rest = del m k in ite (dec j k) rest ((j, v) ∷ rest)

  pub get-put :
      (m : List (K × V)) (k j : K) (v : V) → get (put m k v) j ≡ ite (dec k j) (some v) (get m j)
  unfolding get put
  get-put [] k j v = refl
  get-put ((i, w) ∷ m) k j v = ground (arith, get-put m k j v)

  pub get-put_self : (m : List (K × V)) (k : K) (v : V) → get (put m k v) k ≡ some v
  get-put_self m k v = ground (arith, get-put m k k v)

  pub get-put_ne : (m : List (K × V)) (k j : K) (v : V) → k ≢ j → get (put m k v) j ≡ get m j
  get-put_ne m k j v h = ground (arith, get-put m k j v)

  pub get-del_self : (m : List (K × V)) (k : K) → get (del m k) k ≡ none
  unfolding get del
  get-del_self [] k = refl
  get-del_self ((i, w) ∷ m) k = ground (arith, get-del_self m k)

  pub get-del_ne : (m : List (K × V)) (k j : K) → k ≢ j → get (del m k) j ≡ get m j
  unfolding get del
  get-del_ne [] k j h = refl
  get-del_ne ((i, w) ∷ m) k j h = ground (arith, get-del_ne m k j h)

  -- Deleting a key that is not there changes nothing.
  pub del_absent : (m : List (K × V)) (k : K) → get m k ≡ none → del m k ≡ m
  unfolding get del
  del_absent [] k h = refl
  del_absent ((i, w) ∷ m) k h = elim (dec i k) [
    | yes q ↦ absurd (ground arith)
    | no n ↦ rw (if_neg _ n, del_absent m k (ground arith)) refl
  ]

  pub length-put-le : (m : List (K × V)) (k : K) (v : V) → length (put m k v) ≤ length m + 1
  unfolding put
  length-put-le [] k v = omega arith
  length-put-le ((i, w) ∷ m) k v = ground (arith, length-put-le m k v)

  pub length-del-le : (m : List (K × V)) (k : K) → length (del m k) ≤ length m
  unfolding del
  length-del-le [] k = omega arith
  length-del-le ((i, w) ∷ m) k = ground (arith, length-del-le m k)

  -- Deleting a key that is there makes the map shorter.
  pub length-del-lt :
      (m : List (K × V)) (k : K) {v : V} → get m k ≡ some v → length (del m k) < length m
  unfolding get del
  length-del-lt [] k e = ground arith
  length-del-lt ((i, w) ∷ m) k {v} e = elim (dec i k) [
    | yes p ↦ rw (if_pos _ p) (omega (arith, length-del-le m k))
    | no n ↦ rw (if_neg _ n) (omega (arith, length-del-lt m k {v = v} (ground arith)))
  ]

  -- Each key once, as in a Go map.
  abbrev pub Unique : List (K × V) → Type ℓ
  Unique [] = Unit
  Unique ((k, v) ∷ m) = (get m k ≡ none) × Unique m

  pub put-Unique : (m : List (K × V)) (k : K) (v : V) → Unique m → Unique (put m k v)
  unfolding get put
  put-Unique [] k v u = (refl, tt)
  put-Unique ((i, w) ∷ m) k v u = elim (dec i k) [
    | yes p ↦ rw (if_pos _ p) (subst (λ j. get m j ≡ none) p u.0, u.1)
    | no n ↦ rw (if_neg _ n) (get-put_ne m k i v (λ e. n (sym e)) ∙ u.0, put-Unique m k v u.1)
  ]

  get-del-none : (m : List (K × V)) (k j : K) → get m j ≡ none → get (del m k) j ≡ none
  get-del-none m k j h = elim (dec k j) [
    | yes p ↦ subst (λ i. get (del m k) i ≡ none) p (get-del_self m k)
    | no n ↦ get-del_ne m k j n ∙ h
  ]

  pub del-Unique : (m : List (K × V)) (k : K) → Unique m → Unique (del m k)
  unfolding del
  del-Unique [] k u = tt
  del-Unique ((i, w) ∷ m) k u = elim (dec i k) [
    | yes p ↦ rw (if_pos _ p) (del-Unique m k u.1)
    | no n ↦ rw (if_neg _ n) (get-del-none m k i u.0, del-Unique m k u.1)
  ]

  get-keep_if-none :
      (p : K × V → Bool) (m : List (K × V)) (k : K) → get m k ≡ none → get (keep_if p m) k ≡ none
  unfolding get
  get-keep_if-none p [] k h = refl
  get-keep_if-none p ((i, w) ∷ m) k h = elim (dec i k) [
    | yes q ↦ absurd (ground arith)
    | no n ↦ elim (Bool-cases (p (i, w))) [
      | inl y ↦ rw y (rw (if_neg _ n) (get-keep_if-none p m k (ground arith)))
      | inr z ↦ rw z (get-keep_if-none p m k (ground arith))
    ]
  ]

  pub keep_if-Unique : (p : K × V → Bool) (m : List (K × V)) → Unique m → Unique (keep_if p m)
  keep_if-Unique p [] u = tt
  keep_if-Unique p ((i, w) ∷ m) u = elim (Bool-cases (p (i, w))) [
    | inl y ↦ rw y (get-keep_if-none p m i u.0, keep_if-Unique p m u.1)
    | inr z ↦ rw z (keep_if-Unique p m u.1)
  ]

  abbrev pub passing : (K × V → Bool) → K → Option V → Option V
  passing p k none = none
  passing p k (some v) = if p (k, v) then some v else none

  -- Filtering a map filters each answer.
  pub get-keep_if :
      (p : K × V → Bool) (m : List (K × V)) (k : K)
      → Unique m
      → get (keep_if p m) k ≡ passing p k (get m k)
  unfolding get
  get-keep_if p [] k u = refl
  get-keep_if p ((i, w) ∷ m) k u = elim (dec i k) [
    | yes q ↦ elim (Bool-cases (p (i, w))) [
      | inl y ↦ rw (y, if_pos _ q, if_pos _ q) (rw (← q) (rw y))
      | inr z ↦ rw (z, if_pos _ q) (rw (← q) (rw (z, get-keep_if-none p m i u.0)))
    ]
    | no n ↦ elim (Bool-cases (p (i, w))) [
      | inl y ↦ rw (y, if_neg _ n, if_neg _ n) (get-keep_if p m k u.1)
      | inr z ↦ rw (z, if_neg _ n) (get-keep_if p m k u.1)
    ]
  ]
