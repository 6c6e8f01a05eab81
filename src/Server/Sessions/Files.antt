-- ===== src/Server/Sessions/Files.antt =====
-- The references of each fd through a whole run, and when its file is closed.
use g_mountie.Prelude.{
  ℕ, ◌+◌, ◌^◌, ◌≤◌, ◌<◌, ◌≡◌, inl, inr, refl, true, false, count, remove_one, count-remove_one,
  one_if, ◌&&◌, not, List, [], ◌∷◌, ◌==◌, ltb, length, get, if◌then◌else◌, ℕ_discrete, arith,
  Bool-cases, Option-cases, subst, get-put_self, get-put_ne,
}
use g_mountie.Server.Sessions.{
  FileEntry, Session, new_session, refs_of, row, close_file, take_entry, count_down, check_reaped,
  next_fd, numbered_as, take_number, store_at, publish, count_up, recheck, undo, get_file, fds_of,
  begin_drain, drain_one, Action, checks, numbers, reaps, begins_drain, publishes, counts_up,
  rechecks, undoes, loads, acquires, ends, takes, drops_ref, counts_down, closes_file, drains, act,
  run,
}
use g_mountie.Server.Sessions.Numbers.{if_both, act_fd_num}
use g_mountie.Server.Sessions.Refs.{
  in_table, issued, count_rows, CountsRefs, Counts, refs_of-put_self, refs_of-put_ne,
  take_entry-Counts, drop_ref-Counts, end_operation-Counts, acquire-Counts,
}

-- An fd beyond the last one that was issued is new.
fresh_fd :
    (s : Session) (fd : ℕ)
    → s.fd_num < fd
    → CountsRefs s fd
    → (refs_of s.refs fd ≡ 0) × (count fd s.closed + count fd s.closing + count fd s.numbered ≡ 0)
fresh_fd s fd h c = ground (arith, h, c)

numbered-CountsRefs :
    (s : Session) (f : ℕ) → ((g : ℕ) → CountsRefs s g) → CountsRefs (numbered_as s (s.fd_num + 1)) f
numbered-CountsRefs s f h = elim (ℕ_discrete (s.fd_num + 1) f) [
  | yes q ↦ subst (CountsRefs (numbered_as s (s.fd_num + 1))) q (
    (h (s.fd_num + 1)).0,
    ground (arith, fresh_fd s (s.fd_num + 1) (omega arith) (h (s.fd_num + 1))),
  )
  | no n ↦ ((h f).0, ground (arith, (h f).1, n))
]

take_number-Counts : (s : Session) → s.fd_num + 1 < 2 ^ 64 → Counts s → Counts (take_number s)
unfolding take_number
take_number-Counts s room h = elim (Bool-cases (ltb 0 s.checked)) [
  | inl y ↦
      let same : next_fd s ≡ s.fd_num + 1 = omega (arith, room) in
      rw (y, take_number, same) ((λ f. numbered-CountsRefs s f h.0), h.1)
  | inr n ↦ rw (n, take_number) h
]

-- An fd that waits for its store has no reference, and is not in the table.
pub unstored :
    (s : Session) (fd : ℕ)
    → 0 < count fd s.numbered
    → CountsRefs s fd
    → (refs_of s.refs fd ≡ 0)
      × (in_table s fd + count_rows fd s.releasing + count fd s.holders ≡ 0)
      × (count fd s.closed + count fd s.closing + count fd s.numbered ≡ 1)
      × (one_if (issued s fd) ≡ 1)
unstored s fd h c = ground (arith, h, c)

store_at-CountsRefs :
    (s : Session) (fd : ℕ) (e : FileEntry) (f : ℕ)
    → 0 < count fd s.numbered
    → ((g : ℕ) → CountsRefs s g)
    → CountsRefs (store_at s fd e) f
store_at-CountsRefs s fd e f w h =
    let less = count-remove_one f fd s.numbered w in
    elim (ℕ_discrete fd f) [
      | yes q ↦ subst (CountsRefs (store_at s fd e)) q here
      | no n ↦
          rw (refs_of-put_ne s.refs fd 1 f n, get-put_ne ℕ_discrete s.files fd f e n)
            ((h f).0, ground (arith, (h f).1, less, n))
    ]
  where
    here : CountsRefs (store_at s fd e) fd
    here =
        let u = unstored s fd w (h fd) in
        let own = count-remove_one fd fd s.numbered w in
        rw (refs_of-put_self s.refs fd 1, get-put_self ℕ_discrete s.files fd e)
          (ground (arith, u), ground (arith, u, own))

publish-Counts : (s : Session) (fd : ℕ) (e : FileEntry) → Counts s → Counts (publish s fd e)
unfolding publish
publish-Counts s fd e h = elim (Bool-cases (ltb 0 (count fd s.numbered))) [
  | inl y ↦ rw (y, publish) ((λ f. store_at-CountsRefs s fd e f (ground (arith, y)) h.0), h.1)
  | inr n ↦ rw (n, publish) h
]

close_file-Counts : (s : Session) (fd : ℕ) → Counts s → Counts (close_file s fd)
unfolding close_file
close_file-Counts s fd h = elim (Bool-cases (ltb 0 (count fd s.closing))) [
  | inl y ↦
      let less : (f : ℕ)
          → count f (remove_one fd s.closing) + one_if (fd == f) ≡ count f s.closing =
        λ f. count-remove_one f fd s.closing (ground (arith, y)) in
      rw (y, close_file) ((λ f. ((h.0 f).0, ground (arith, (h.0 f).1, less f))), h.1)
  | inr n ↦ rw (n, close_file) h
]

count_up-Counts : (s : Session) (fd : ℕ) → Counts s → Counts (count_up s fd)
unfolding count_up
count_up-Counts s fd h = elim (Option-cases (row fd s.stored)) [
  | inl n ↦ rw (n, count_up) h
  | inr (v, q) ↦ rw (q, count_up) h
]

count_down-Counts : (s : Session) (fd : ℕ) → Counts s → Counts (count_down s fd)
unfolding count_down
count_down-Counts s fd h = elim (Option-cases (row fd s.dropped)) [
  | inl n ↦ rw (n, count_down) h
  | inr (v, q) ↦ rw (q, count_down) h
]

pub act-Counts : (s : Session) (a : Action) → s.fd_num + 1 < 2 ^ 64 → Counts s → Counts (act s a)
unfolding act check_reaped recheck undo get_file begin_drain drain_one
act-Counts s checks room h = if_both Counts s.reaped s (record s { checked = s.checked + 1 }) h h
act-Counts s numbers room h = take_number-Counts s room h
act-Counts s (publishes fd e) room h = publish-Counts s fd e h
act-Counts s (counts_up fd) room h = count_up-Counts s fd h
act-Counts s (rechecks fd) room h =
    let t = record s { pending = remove_one fd s.pending } in
    let found = record t { undoing = fd ∷ s.undoing } in
    if_both Counts (ltb 0 (count fd s.pending)) (if s.reaped then found else t) s
      (if_both Counts s.reaped found t h h) h
act-Counts s (undoes fd) room h =
    let t = record s { undoing = remove_one fd s.undoing } in
    if_both Counts (ltb 0 (count fd s.undoing)) (take_entry t fd) s (take_entry-Counts t fd h) h
act-Counts s (loads fd) room h = elim (Option-cases (get ℕ_discrete s.files fd)) [
  | inl n ↦ rw (n, act, get_file) h
  | inr (e, q) ↦ rw (q, act, get_file) h
]
act-Counts s (acquires fd) room h = acquire-Counts s fd h
act-Counts s (ends fd) room h = end_operation-Counts s fd h
act-Counts s (takes fd) room h = take_entry-Counts s fd h
act-Counts s (drops_ref fd) room h = drop_ref-Counts s fd h
act-Counts s (counts_down fd) room h = count_down-Counts s fd h
act-Counts s (closes_file fd) room h = close_file-Counts s fd h
act-Counts s reaps room h = h
act-Counts s begins_drain room h =
    let t = record s { draining = true; todo = fds_of s.files } in
    if_both Counts (s.reaped && not s.draining) t s h h
act-Counts s (drains fd) room h =
    let t = record s { todo = remove_one fd s.todo } in
    if_both Counts s.draining (take_entry t fd) s (take_entry-Counts t fd h) h

pub run-Counts :
    (acts : List Action) (s : Session)
    → s.fd_num + length acts < 2 ^ 64
    → Counts s
    → Counts (run s acts)
unfolding run
run-Counts [] s room h = h
run-Counts (a ∷ acts) s room h =
    let one : s.fd_num + 1 < 2 ^ 64 = omega (arith, room) in
    run-Counts acts (act s a) (omega (arith, room, act_fd_num s a one)) (act-Counts s a one h)

pub new_session-Counts : Counts new_session
unfolding refs_of get
new_session-Counts = (λ (f : ℕ). ground arith, refl)

-- Closed at most once, and not while the table or an operation has the file.
abbrev pub ClosedOnce : Session → ℕ → Type 0
ClosedOnce s fd =
    (count fd s.closed ≤ 1)
    × (count fd s.closed ≡ 1 → (in_table s fd ≡ 0) × (count fd s.holders ≡ 0))

closed_once : (s : Session) (fd : ℕ) → CountsRefs s fd → ClosedOnce s fd
closed_once s fd h = (ground (arith, h), λ e. (ground (arith, h, e), ground (arith, h, e)))

-- However the calls of up to 2 ^ 64 - 1 atomic steps interleave, reaping and late operations
-- included, no file is closed twice, or while the table or an operation holds it, and no
-- `ReleaseRef` is without a reference.
pub run-ClosedOnce :
    (acts : List Action) (fd : ℕ)
    → length acts < 2 ^ 64
    → ((run new_session acts).panicked ≡ false) × ClosedOnce (run new_session acts) fd
run-ClosedOnce acts fd room =
    let h = run-Counts acts new_session (omega (arith, room)) new_session-Counts in
    (h.1, closed_once (run new_session acts) fd (h.0 fd))
