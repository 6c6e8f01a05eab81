-- ===== src/Server/Sessions/Leaks.antt =====
-- ReleaseAll against the registrations that are under way.
use g_mountie.Prelude.{
  ℕ, ◌+◌, ◌^◌, ◌≤◌, ◌<◌, ◌≡◌, inl, inr, refl, true, false, count, remove_one, count-remove_one-le,
  one_if, ◌&&◌, not, List, [], ◌∷◌, ◌==◌, ltb, length, get, del, if◌then◌else◌, ℕ_discrete, arith,
  Bool-cases, Option-cases, get-put_self, get-put_ne, get-del_self, get-del_ne, subst, none,
}
use g_mountie.Server.Sessions.{
  FileEntry, Session, new_session, refs_of, set_refs, row, drop_row, release_ref, close_file,
  take_entry, drop_ref, count_down, check_reaped, next_fd, numbered_as, take_number, store_at,
  publish, count_up, recheck, undo, get_file, acquire, end_operation, fds_of, begin_drain,
  drain_one, Action, checks, numbers, reaps, begins_drain, publishes, counts_up, rechecks, undoes,
  loads, acquires, ends, takes, drops_ref, counts_down, closes_file, drains, act, run,
}
use g_mountie.Server.Sessions.Files.{new_session-Counts, run-Counts}
use g_mountie.Server.Sessions.Refs.{if_some, in_table, count_rows, count_rows-drop_row, CountsRefs}
use g_mountie.Server.Sessions.Numbers.{if_both, if_by, release_ref_rest}

-- The calls that still see to it that the fd leaves the table.
abbrev pub sweepers : Session → ℕ → ℕ
sweepers s fd = count fd s.todo + count_rows fd s.stored + count fd s.pending + count fd s.undoing

-- Once `ReleaseAll` has begun, each fd in the table is one that it has yet to visit, or one whose
-- registration has yet to look again.
abbrev pub Swept : Session → Type 0
Swept s = s.draining ≡ true → (s.reaped ≡ true) × ((fd : ℕ) → in_table s fd ≤ sweepers s fd)

-- A released fd needs no visit and no look.
swept_without :
    (files : List (ℕ × FileEntry)) (fd f n m : ℕ)
    → if_some (get ℕ_discrete files f) ≤ n
    → n ≤ m + one_if (fd == f)
    → if_some (get ℕ_discrete (del ℕ_discrete files fd) f) ≤ m
swept_without files fd f n m h more = elim (ℕ_discrete fd f) [
  | yes q ↦ rw (← q) (rw (get-del_self ℕ_discrete files fd) (omega arith))
  | no d ↦ rw (get-del_ne ℕ_discrete files fd f d) (ground (arith, h, more, d))
]

-- `LoadAndDelete` of an fd after one visit or one look is taken off the lists.
take_entry-Swept :
    (s : Session) (fd : ℕ)
    → (s.draining ≡ true
        → (s.reaped ≡ true) × ((f : ℕ) → in_table s f ≤ sweepers s f + one_if (fd == f)))
    → Swept (take_entry s fd)
unfolding take_entry
take_entry-Swept s fd h = elim (Option-cases (get ℕ_discrete s.files fd)) [
  | inl n ↦ rw (n, take_entry) (λ (d : s.draining ≡ true). ((h d).0, λ (f : ℕ). absent f n (h d).1))
  | inr (e, q) ↦
      rw (q, take_entry)
        (λ (d : s.draining ≡ true). (
          (h d).0,
          λ (f : ℕ).
              swept_without s.files fd f (sweepers s f + one_if (fd == f)) (sweepers s f)
                ((h d).1 f) (omega arith),
        ))
]
  where
    absent :
        (f : ℕ)
        → get ℕ_discrete s.files fd ≡ none
        → ((g : ℕ) → in_table s g ≤ sweepers s g + one_if (fd == g))
        → in_table s f ≤ sweepers s f
    absent f n h = elim (ℕ_discrete fd f) [
      | yes p ↦ subst (λ i. in_table s i ≤ sweepers s i) p (rw n (omega arith))
      | no d ↦ ground (arith, h f, d)
    ]

count-fds_of :
    (files : List (ℕ × FileEntry)) (f : ℕ)
    → if_some (get ℕ_discrete files f) ≤ count f (fds_of files)
unfolding get
count-fds_of [] f = omega arith
count-fds_of ((i, e) ∷ files) f = ground (arith, count-fds_of files f)

store_at-Swept : (s : Session) (fd : ℕ) (e : FileEntry) → Swept s → Swept (store_at s fd e)
store_at-Swept s fd e h d = ((h d).0, each)
  where
    each : (f : ℕ) → in_table (store_at s fd e) f ≤ sweepers (store_at s fd e) f
    each f = elim (ℕ_discrete fd f) [
      | yes q ↦ rw (← q) (rw (get-put_self ℕ_discrete s.files fd e) (ground arith))
      | no n ↦ rw (get-put_ne ℕ_discrete s.files fd f e n) (ground (arith, (h d).1 f, n))
    ]

release_ref-Swept : (s : Session) (fd : ℕ) → Swept s → Swept (release_ref s fd)
release_ref-Swept s fd h = let r = release_ref_rest s fd in rw (r.1, r.4, r.5, r.6, r.7, r.8, r.9) h

drop_ref-Swept : (s : Session) (fd : ℕ) → Swept s → Swept (drop_ref s fd)
unfolding drop_ref
drop_ref-Swept s fd h = elim (Option-cases (row fd s.releasing)) [
  | inl n ↦ rw (n, drop_ref) h
  | inr (v, q) ↦
      let t = record s { releasing = drop_row fd s.releasing; dropped = (fd, v) ∷ s.dropped } in
      rw (q, drop_ref) (release_ref-Swept t fd h)
]

count_down-Swept : (s : Session) (fd : ℕ) → Swept s → Swept (count_down s fd)
unfolding count_down
count_down-Swept s fd h = elim (Option-cases (row fd s.dropped)) [
  | inl n ↦ rw (n, count_down) h
  | inr (v, q) ↦ rw (q, count_down) h
]

count_up-Swept : (s : Session) (fd : ℕ) → Swept s → Swept (count_up s fd)
unfolding count_up
count_up-Swept s fd h = elim (Option-cases (row fd s.stored)) [
  | inl n ↦ rw (n, count_up) h
  | inr (v, q) ↦
      rw (q, count_up)
        (λ (d : s.draining ≡ true). (
          (h d).0,
          λ (f : ℕ). ground (arith, (h d).1 f, count_rows-drop_row f fd s.stored {v = v} q),
        ))
]

recheck-Swept : (s : Session) (fd : ℕ) → Swept s → Swept (recheck s fd)
unfolding recheck
recheck-Swept s fd h =
    if_by Swept (ltb 0 (count fd s.pending)) (if s.reaped then found else t) s
      (λ (y : ltb 0 (count fd s.pending) ≡ true).
        if_by Swept s.reaped found t
          (λ (z : s.reaped ≡ true) (d : s.draining ≡ true).
            (z, λ (f : ℕ). ground (arith, (h d).1 f, count-remove_one-le f fd s.pending)))
          (λ (n : s.reaped ≡ false) (d : s.draining ≡ true). absurd (ground (arith, n, (h d).0))))
      (λ (n : ltb 0 (count fd s.pending) ≡ false). h)
  where
    t : Session
    t = record s { pending = remove_one fd s.pending }

    found : Session
    found = record t { undoing = fd ∷ s.undoing }

undo-Swept : (s : Session) (fd : ℕ) → Swept s → Swept (undo s fd)
unfolding undo
undo-Swept s fd h =
    if_both Swept (ltb 0 (count fd s.undoing)) (take_entry t fd) s
      (take_entry-Swept t fd (λ (d : s.draining ≡ true).
        ((h d).0, λ (f : ℕ). omega (arith, (h d).1 f, count-remove_one-le f fd s.undoing))))
      h
  where
    t : Session
    t = record s { undoing = remove_one fd s.undoing }

drain_one-Swept : (s : Session) (fd : ℕ) → Swept s → Swept (drain_one s fd)
unfolding drain_one
drain_one-Swept s fd h =
    if_both Swept s.draining (take_entry t fd) s
      (take_entry-Swept t fd (λ (d : s.draining ≡ true).
        ((h d).0, λ (f : ℕ). omega (arith, (h d).1 f, count-remove_one-le f fd s.todo))))
      h
  where
    t : Session
    t = record s { todo = remove_one fd s.todo }

act-Swept : (s : Session) (a : Action) → Swept s → Swept (act s a)
unfolding act check_reaped take_number publish get_file acquire end_operation begin_drain close_file
act-Swept s checks h = if_both Swept s.reaped s (record s { checked = s.checked + 1 }) h h
act-Swept s numbers h = if_both Swept (ltb 0 s.checked) (numbered_as s (next_fd s)) s h h
act-Swept s (publishes fd e) h =
    if_both Swept (ltb 0 (count fd s.numbered)) (store_at s fd e) s (store_at-Swept s fd e h) h
act-Swept s (counts_up fd) h = count_up-Swept s fd h
act-Swept s (rechecks fd) h = recheck-Swept s fd h
act-Swept s (undoes fd) h = undo-Swept s fd h
act-Swept s (loads fd) h = elim (Option-cases (get ℕ_discrete s.files fd)) [
  | inl n ↦ rw (n, act, get_file) h
  | inr (e, q) ↦ rw (q, act, get_file) h
]
act-Swept s (acquires fd) h =
    let t = record s { loaded = remove_one fd s.loaded } in
    let more = set_refs (record t { holders = fd ∷ s.holders }) fd (refs_of s.refs fd + 1) in
    if_both Swept (ltb 0 (count fd s.loaded)) (if ltb 0 (refs_of s.refs fd) then more else t) s
      (if_both Swept (ltb 0 (refs_of s.refs fd)) more t h h) h
act-Swept s (ends fd) h =
    let t = record s { holders = remove_one fd s.holders } in
    if_both Swept (ltb 0 (count fd s.holders)) (release_ref t fd) s (release_ref-Swept t fd h) h
act-Swept s (takes fd) h =
    take_entry-Swept s fd
      (λ (d : s.draining ≡ true). ((h d).0, λ (f : ℕ). omega (arith, (h d).1 f)))
act-Swept s (drops_ref fd) h = drop_ref-Swept s fd h
act-Swept s (counts_down fd) h = count_down-Swept s fd h
act-Swept s (closes_file fd) h =
    let t = record s { closing = remove_one fd s.closing; closed = fd ∷ s.closed } in
    if_both Swept (ltb 0 (count fd s.closing)) t s h h
act-Swept s reaps h = λ (d : s.draining ≡ true). (refl, (h d).1)
act-Swept s begins_drain h = elim (Bool-cases (s.reaped && not s.draining)) [
  | inl y ↦
      rw (y, act, begin_drain)
        (λ (d : true ≡ true). (ground (arith, y), λ (f : ℕ). omega (arith, count-fds_of s.files f)))
  | inr n ↦ rw (n, act, begin_drain) h
]
act-Swept s (drains fd) h = drain_one-Swept s fd h

pub run-Swept : (acts : List Action) (s : Session) → Swept s → Swept (run s acts)
unfolding run
run-Swept [] s h = h
run-Swept (a ∷ acts) s h = run-Swept acts (act s a) (act-Swept s a h)

empty_table :
    (files : List (ℕ × FileEntry)) → ((f : ℕ) → if_some (get ℕ_discrete files f) ≤ 0) → files ≡ []
unfolding get
empty_table [] h = refl
empty_table ((i, e) ∷ files) h = absurd (ground (arith, h i))

-- Nothing is left to do: `ReleaseAll` has visited all, no registration, release or operation is on
-- its way, and no file is about to be closed.
abbrev pub Quiet : Session → Type 0
Quiet s =
    (s.draining ≡ true)
    × (s.todo ≡ [])
    × (s.numbered ≡ [])
    × (s.stored ≡ [])
    × (s.pending ≡ [])
    × (s.undoing ≡ [])
    × (s.releasing ≡ [])
    × (s.holders ≡ [])
    × (s.closing ≡ [])

closed_then :
    (t : Session) (fd : ℕ)
    → Quiet t
    → in_table t fd ≤ 0
    → 0 < fd
    → fd ≤ t.fd_num
    → CountsRefs t fd
    → count fd t.closed ≡ 1
closed_then t fd q e low high c =
    let parts = rw (q.2, q.6, q.7, q.8) at c in ground (arith, e, low, high, parts)

-- However up to 2 ^ 64 - 1 accesses of calls interleave with the reap of the session: once
-- `ReleaseAll` has visited what was in the table as it began, and no registration, no release and no
-- operation on a file is on its way any more, the table is empty and each fd that was ever issued
-- was closed exactly once.
pub reaped_closes :
    (acts : List Action)
    → length acts < 2 ^ 64
    → Quiet (run new_session acts)
    → ((run new_session acts).files ≡ [])
      × ((fd : ℕ)
          → 0 < fd
          → fd ≤ (run new_session acts).fd_num
          → count fd (run new_session acts).closed ≡ 1)
reaped_closes acts room q =
    let t = run new_session acts in
    let swept = run-Swept acts new_session (λ (d : false ≡ true). absurd (ground (arith, d))) q.0 in
    let none_left : (f : ℕ) → in_table t f ≤ 0 = λ f. rw (q.1, q.3, q.4, q.5) at (swept.1 f) in
    let counts = run-Counts acts new_session (omega (arith, room)) new_session-Counts in
    (
      empty_table t.files none_left,
      λ fd low high. closed_then t fd q (none_left fd) low high (counts.0 fd),
    )
