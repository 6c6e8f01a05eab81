-- ===== src/Server/Sessions/Refs.antt =====
-- The references of each fd, at each action that drops or takes one.
use g_mountie.Prelude.{
  ℕ, ◌+◌, ◌-◌, Bytes, ◌<◌, ◌≡◌, ◌≢◌, inl, inr, refl, Bool, false, count, remove_one,
  count-remove_one, one_if, ◌&&◌, Option, none, some, List, [], ◌∷◌, ◌==◌, ltb, leb, get, put,
  if◌then◌else◌, ℕ_discrete, arith, Bool-cases, Option-cases, subst, get-put_self, get-put_ne,
  get-del_self, get-del_ne,
}
use g_mountie.Server.Sessions.{
  FileEntry, Session, refs_of, set_refs, row, drop_row, release_ref, taken, take_entry, drop_ref,
  acquire, end_operation,
}
use g_mountie.Server.Sessions.Numbers.{with_less}

abbrev pub if_some : Option FileEntry → ℕ
if_some none = 0
if_some (some e) = 1

-- 1 if the fd is in the table.
abbrev pub in_table : Session → ℕ → ℕ
in_table s fd = if_some (get ℕ_discrete s.files fd)

abbrev pub issued : Session → ℕ → Bool
issued s fd = ltb 0 fd && leb fd s.fd_num

abbrev pub count_rows : ℕ → List (ℕ × Bytes) → ℕ
count_rows fd [] = 0
count_rows fd ((i, v) ∷ l) = if i == fd then count_rows fd l + 1 else count_rows fd l

-- A reference for the table's entry, for each caller that took it out and for each operation that
-- has one; an fd that was issued is not yet stored, or has references, or is being closed, or was
-- closed, once.
abbrev pub CountsRefs : Session → ℕ → Type 0
CountsRefs s fd =
    (refs_of s.refs fd ≡ in_table s fd + count_rows fd s.releasing + count fd s.holders)
    × (count fd s.closed
          + count fd s.closing
          + count fd s.numbered
          + one_if (ltb 0 (refs_of s.refs fd))
        ≡ one_if (issued s fd))

abbrev pub Counts : Session → Type 0
Counts s = ((fd : ℕ) → CountsRefs s fd) × (s.panicked ≡ false)

pub count_rows-drop_row :
    (f fd : ℕ) (l : List (ℕ × Bytes)) {v : Bytes}
    → row fd l ≡ some v
    → count_rows f (drop_row fd l) + one_if (fd == f) ≡ count_rows f l
count_rows-drop_row f fd [] e = absurd (ground (arith, e))
count_rows-drop_row f fd ((i, w) ∷ l) {v} e = elim (Bool-cases (i == fd)) [
  | inl y ↦ rw y (ground (arith, y))
  | inr n ↦ rw n (ground (arith, count_rows-drop_row f fd l {v = v} (rw n at e)))
]

pub refs_of-put_self : (m : List (ℕ × ℕ)) (fd n : ℕ) → refs_of (put ℕ_discrete m fd n) fd ≡ n
unfolding refs_of
refs_of-put_self m fd n = rw (get-put_self ℕ_discrete m fd n) refl

pub refs_of-put_ne :
    (m : List (ℕ × ℕ)) (fd n f : ℕ) → fd ≢ f → refs_of (put ℕ_discrete m fd n) f ≡ refs_of m f
unfolding refs_of
refs_of-put_ne m fd n f d = rw (get-put_ne ℕ_discrete m fd f n d) refl

pub release_ref_live :
    (s : Session) (fd : ℕ) → 0 < refs_of s.refs fd → release_ref s fd ≡ with_less s fd
unfolding release_ref
release_ref_live s fd h = rw (not_zero (refs_of s.refs fd) h) refl
  where
    not_zero : (n : ℕ) → 0 < n → (n == 0) ≡ false
    not_zero n h = ground (arith, h)

-- Dropping one of the references that `CountsRefs` asks for.
release_ref-Counts :
    (s : Session) (fd : ℕ)
    → (refs_of s.refs fd ≡ in_table s fd + count_rows fd s.releasing + count fd s.holders + 1)
    → ((f : ℕ) → fd ≢ f → CountsRefs s f)
    → (count fd s.closed + count fd s.closing + count fd s.numbered + 1 ≡ one_if (issued s fd))
    → s.panicked ≡ false
    → Counts (release_ref s fd)
release_ref-Counts s fd e o c p =
    let h : 0 < refs_of s.refs fd = omega (arith, e) in rw (release_ref_live s fd h) (each, p)
  where
    here : CountsRefs (with_less s fd) fd
    here =
        rw (refs_of-put_self s.refs fd (refs_of s.refs fd - 1))
          (omega (arith, e), ground (arith, e, c))

    each : (f : ℕ) → CountsRefs (with_less s fd) f
    each f = elim (ℕ_discrete fd f) [
      | yes q ↦ subst (CountsRefs (with_less s fd)) q here
      | no n ↦
          let out = refs_of-put_ne s.refs fd (refs_of s.refs fd - 1) f n in
          rw out (ground (arith, o f n, n))
    ]

one_live :
    (s : Session) (fd : ℕ)
    → 0 < refs_of s.refs fd
    → count fd s.closed
        + count fd s.closing
        + count fd s.numbered
        + one_if (ltb 0 (refs_of s.refs fd))
      ≡ one_if (issued s fd)
    → count fd s.closed + count fd s.closing + count fd s.numbered + 1 ≡ one_if (issued s fd)
one_live s fd h e = ground (arith, h, e)

-- Taking the entry moves the table's reference to the caller.
taken-CountsRefs :
    (s : Session) (fd : ℕ) (e : FileEntry) (f : ℕ)
    → get ℕ_discrete s.files fd ≡ some e
    → ((g : ℕ) → CountsRefs s g)
    → CountsRefs (taken s fd (some e)) f
taken-CountsRefs s fd e f q h = elim (ℕ_discrete fd f) [
  | yes p ↦
      let here : refs_of s.refs fd ≡ 1 + count_rows fd s.releasing + count fd s.holders =
        rw q at ((h fd).0) in
      subst (CountsRefs (taken s fd (some e))) p
        (rw (get-del_self ℕ_discrete s.files fd) (ground (arith, here), (h fd).1))
  | no n ↦ rw (get-del_ne ℕ_discrete s.files fd f n) (ground (arith, (h f).0, n), (h f).1)
]

pub take_entry-Counts : (s : Session) (fd : ℕ) → Counts s → Counts (take_entry s fd)
unfolding take_entry
take_entry-Counts s fd h = elim (Option-cases (get ℕ_discrete s.files fd)) [
  | inl n ↦ rw (n, take_entry) h
  | inr (e, q) ↦ rw (q, take_entry) ((λ f. taken-CountsRefs s fd e f q h.0), h.1)
]

pub drop_ref-Counts : (s : Session) (fd : ℕ) → Counts s → Counts (drop_ref s fd)
unfolding drop_ref
drop_ref-Counts s fd h = elim (Option-cases (row fd s.releasing)) [
  | inl n ↦ rw (n, drop_ref) h
  | inr (v, q) ↦
      let t = record s { releasing = drop_row fd s.releasing; dropped = (fd, v) ∷ s.dropped } in
      let less : (f : ℕ)
          → count_rows f (drop_row fd s.releasing) + one_if (fd == f) ≡ count_rows f s.releasing =
        λ f. count_rows-drop_row f fd s.releasing {v = v} q in
      let gone : refs_of s.refs fd
          ≡ in_table t fd + count_rows fd t.releasing + count fd t.holders + 1 =
        ground (arith, (h.0 fd).0, less fd) in
      let others : (f : ℕ) → fd ≢ f → CountsRefs t f =
        λ f n. (ground (arith, (h.0 f).0, less f, n), (h.0 f).1) in
      let live = one_live s fd (omega (arith, gone)) (h.0 fd).1 in
      rw (q, drop_ref) (release_ref-Counts t fd gone others live h.1)
]

pub end_operation-Counts : (s : Session) (fd : ℕ) → Counts s → Counts (end_operation s fd)
unfolding end_operation
end_operation-Counts s fd h = elim (Bool-cases (ltb 0 (count fd s.holders))) [
  | inl y ↦
      let some_one : 0 < count fd s.holders = ground (arith, y) in
      let less : (f : ℕ)
          → count f (remove_one fd s.holders) + one_if (fd == f) ≡ count f s.holders =
        λ f. count-remove_one f fd s.holders some_one in
      let t = record s { holders = remove_one fd s.holders } in
      let gone : refs_of s.refs fd
          ≡ in_table t fd + count_rows fd t.releasing + count fd t.holders + 1 =
        ground (arith, (h.0 fd).0, less fd) in
      let others : (f : ℕ) → fd ≢ f → CountsRefs t f =
        λ f n. (ground (arith, (h.0 f).0, less f, n), (h.0 f).1) in
      let live = one_live s fd (omega (arith, gone)) (h.0 fd).1 in
      rw (y, end_operation) (release_ref-Counts t fd gone others live h.1)
  | inr n ↦ rw (n, end_operation) h
]

acquired :
    (s : Session) (fd : ℕ)
    → 0 < refs_of s.refs fd
    → ((f : ℕ) → CountsRefs s f)
    → (f : ℕ)
    → CountsRefs (set_refs (record s { holders = fd ∷ s.holders }) fd (refs_of s.refs fd + 1)) f
acquired s fd more h f = elim (ℕ_discrete fd f) [
  | yes q ↦ subst (CountsRefs t) q (
      rw (refs_of-put_self s.refs fd (refs_of s.refs fd + 1))
        (ground (arith, here), ground (arith, here, more)))
  | no n ↦ rw (refs_of-put_ne s.refs fd (refs_of s.refs fd + 1) f n) (ground (arith, h f, n))
]
  where
    t : Session
    t = set_refs (record s { holders = fd ∷ s.holders }) fd (refs_of s.refs fd + 1)

    here : CountsRefs s fd
    here = h fd

pub acquire-Counts : (s : Session) (fd : ℕ) → Counts s → Counts (acquire s fd)
unfolding acquire
acquire-Counts s fd h = elim (Bool-cases (ltb 0 (count fd s.loaded))) [
  | inl y ↦ elim (Bool-cases (ltb 0 (refs_of s.refs fd))) [
    | inl z ↦ rw (y, z, acquire) (acquired s fd (ground (arith, z)) h.0, h.1)
    | inr m ↦ rw (y, m, acquire) h
  ]
  | inr n ↦ rw (n, acquire) h
]
