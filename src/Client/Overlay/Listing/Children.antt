-- ===== src/Client/Overlay/Listing/Children.antt =====
-- ListMerge against the nodes at a directory's paths.
use g_mountie.Prelude.{
  ◌≡◌, ◌≢◌, inl, inr, refl, ◌∙◌, ap, subst, Bool, true, false, not, Option, none, some, List, [],
  ◌∷◌, ◌++◌, ◌==◌, any, All, keep_if, get, put, get-put_self, get-put_ne, if◌then◌else◌, Bytes,
  Bytes-discrete, same, Unique, Bool-cases, Option-cases, arith,
}
use mathlib.Core.Logic.{if_pos, if_neg}
use g_mountie.Paths.{slash}
use g_mountie.Client.Overlay.{OverlayNode, Overlay}
use g_mountie.Client.Overlay.Listing.{
  DirEntryPlus, cut_last, or_bare, split_path2, join_path2, pending_children, is_tomb,
  created_entries, list_merge, times, owed, times-append, pending_children-Unique, owed_parts,
  kept_times, created_times,
}

abbrev pub has_slash : Bytes → Bool
has_slash p = any (λ c. c == slash) p

-- A path as the mount has it, without a slash in front.
abbrev pub is_relative : Bytes → Bool
is_relative [] = true
is_relative (c ∷ p) = if c == slash then false else true

cut_last-none : (name : Bytes) → has_slash name ≡ false → cut_last name ≡ none
unfolding cut_last
cut_last-none [] h = refl
cut_last-none (c ∷ name) h = elim (Bool-cases (c == slash)) [
  | inl y ↦ absurd (ground (arith, y, h))
  | inr n ↦ rw (cut_last-none name (ground (arith, n, h)), n) refl
]

cut_last-append :
    (dir name : Bytes)
    → has_slash name ≡ false
    → cut_last (dir ++ (slash ∷ name)) ≡ some (dir, name)
unfolding cut_last
cut_last-append [] name h = rw (cut_last-none name h) (ground arith)
cut_last-append (c ∷ dir) name h = rw (cut_last-append dir name h) refl

split_path2-join_path2 :
    (dir name : Bytes) → has_slash name ≡ false → split_path2 (join_path2 dir name) ≡ (dir, name)
unfolding split_path2
split_path2-join_path2 [] name h = rw (cut_last-none name h) refl
split_path2-join_path2 (c ∷ dir) name h = rw (cut_last-append (c ∷ dir) name h) refl

abbrev some_pair : Bytes → Bytes → Option (Bytes × Bytes)
some_pair d n = some (d, n)

abbrev first_or : Bytes → Option (Bytes × Bytes) → Bytes
first_or d none = d
first_or d (some x) = x.0

abbrev second_or : Bytes → Option (Bytes × Bytes) → Bytes
second_or d none = d
second_or d (some x) = x.1

pair_parts : (d n x z : Bytes) → some_pair d n ≡ some_pair x z → (d ≡ x) × (n ≡ z)
pair_parts d n x z e = (ap (λ o. first_or d o) e, ap (λ o. second_or n o) e)

cut_last-joined : (p dir name : Bytes) → cut_last p ≡ some (dir, name) → p ≡ dir ++ (slash ∷ name)
unfolding cut_last
cut_last-joined [] dir name e = absurd (ground (arith, e))
cut_last-joined (c ∷ p) dir name e = elim (Option-cases (cut_last p)) [
  | inl n ↦ elim (Bool-cases (c == slash)) [
    | inl y ↦
        let (x, z) = pair_parts [] p dir name (rw (n, y) at e) in
        rw (← x, ← z) (ap (λ k. k ∷ p) (ground (arith, y)))
    | inr m ↦ absurd (ground (arith, (rw (n, m) at e)))
  ]
  | inr ((d, m), q) ↦
      let (x, z) = pair_parts (c ∷ d) m dir name (rw q at e) in
      rw (← x, ← z) (ap (λ k. c ∷ k) (cut_last-joined p d m q))
]

-- A path is under the parent that it was split into.
joined-split_path2 :
    (p : Bytes) → is_relative p ≡ true → p ≡ join_path2 (split_path2 p).0 (split_path2 p).1
unfolding split_path2
joined-split_path2 p r = elim (Option-cases (cut_last p)) [
  | inl n ↦ rw (n, or_bare) refl
  | inr ((d, m), q) ↦ rw (q, or_bare) (under p d m r (cut_last-joined p d m q))
]
  where
    under : (p d m : Bytes) → is_relative p ≡ true → p ≡ d ++ (slash ∷ m) → p ≡ join_path2 d m
    under p [] m r q = absurd (ground (arith, (rw q at r)))
    under p (c ∷ d) m r q = q

abbrev pub or_else : Option OverlayNode → Option OverlayNode → Option OverlayNode
or_else none o = o
or_else (some n) o = some n

-- The pending state of a name is that of the path, where the names of nodes have no slash in front.
get-pending_children :
    (dir name : Bytes) (children nodes : List (Bytes × OverlayNode))
    → has_slash name ≡ false
    → All (λ e. is_relative e.0 ≡ true) nodes
    → Unique Bytes-discrete nodes
    → get Bytes-discrete (pending_children dir children nodes) name
      ≡ or_else (get Bytes-discrete nodes (join_path2 dir name)) (get Bytes-discrete children name)
unfolding pending_children get
get-pending_children dir name children [] h r u = refl
get-pending_children dir name children ((p, n) ∷ nodes) h r u =
    elim (Bytes-discrete p (join_path2 dir name)) [
      | yes q ↦
          let parts : split_path2 p ≡ (dir, name) =
            ap (λ k. split_path2 k) q ∙ split_path2-join_path2 dir name h in
          let gone : get Bytes-discrete nodes (join_path2 dir name) ≡ none =
            subst (λ j. get Bytes-discrete nodes j ≡ none) q u.0 in
          let self : same dir dir ≡ true = ground arith in
          rw (if_pos _ q, parts, self)
            (get-pending_children dir name (put Bytes-discrete children name n) nodes h r.1 u.1
              ∙ rw gone (get-put_self Bytes-discrete children name n))
      | no d ↦ elim (Bool-cases (same (split_path2 p).0 dir)) [
        | inl y ↦
            let k = (split_path2 p).1 in
            let here : (split_path2 p).0 ≡ dir = ground (arith, y) in
            let other : k ≢ name = λ e. d (
              joined-split_path2 p r.0
              ∙ ap (λ x. join_path2 x k) here
              ∙ ap (λ x. join_path2 dir x) e) in
            rw (if_neg _ d, y)
              (get-pending_children dir name (put Bytes-discrete children k n) nodes h r.1 u.1
                ∙ ap (λ o. or_else (get Bytes-discrete nodes (join_path2 dir name)) o)
                    (get-put_ne Bytes-discrete children k name n other))
        | inr m ↦ rw (if_neg _ d, m) (get-pending_children dir name children nodes h r.1 u.1)
      ]
    ]

or_else-none : (o : Option OverlayNode) → or_else o none ≡ o
or_else-none none = refl
or_else-none (some n) = refl

-- A listing that is merged with pending state has each name as often as the node at the name's path
-- says: a name with a pending deletion is gone, a name that is pending and was not in the
-- server's listing stands there once, and any other name stands there as often as before. The
-- nodes stand once each, by paths without a slash in front, and the name has no slash.
pub times-list_merge :
    (ov : Overlay) (dir : Bytes) (base : List DirEntryPlus) (name : Bytes)
    → has_slash name ≡ false
    → All (λ e. is_relative e.0 ≡ true) ov.nodes
    → Unique Bytes-discrete ov.nodes
    → times name (list_merge ov dir base)
      ≡ owed (get Bytes-discrete ov.nodes (join_path2 dir name)) (times name base)
unfolding list_merge get
times-list_merge ov dir base name h r d =
    let children = pending_children dir [] ov.nodes in
    let u = pending_children-Unique dir [] ov.nodes tt in
    let here = get-pending_children dir name [] ov.nodes h r d ∙ or_else-none _ in
    times-append name (keep_if (λ e. not (is_tomb (get Bytes-discrete children e.name))) base)
      (created_entries base children)
    ∙ rw (kept_times children name base, created_times children name base u)
        (owed_parts (get Bytes-discrete children name) (times name base))
    ∙ ap (λ o. owed o (times name base)) here
